-- ===== src/Transport/Tests.antt =====
-- Requests of one kind each.
use flux_bar.Prelude.{◌≡◌, refl, false, ok, pos}
use flux_bar.Domain.Selection as Domain
use flux_bar.Store.Apply.{normalize_selection}
use flux_bar.Transport.Request.{
  Request, default_request, Operation, into_operation, operation_name, to_domain,
}
use flux_bar.Transport.Request
use flux_bar.Transport.Response.{selection_dto}
use flux_bar.Transport.Routing.{
  echoed, into_operation-name, into_operation-reaches, to_domain-selection_dto,
}

abbrev request : Request
request = record default_request { operation = "discard_undo"; mutation_id = "b1" }

routed : into_operation request ≡ ok (Request.discard_undo "b1")
unfolding into_operation
routed = refl

into_operation-name_example : operation_name (Request.discard_undo "b1") ≡ "discard_undo"
into_operation-name_example = into_operation-name request (Request.discard_undo "b1") routed

into_operation-reaches_example :
    (r : Request) × (into_operation r ≡ ok (Request.feed_icon (pos 3) "Feed"))
into_operation-reaches_example = into_operation-reaches (Request.feed_icon (pos 3) "Feed")

to_domain-selection_dto_example :
    to_domain (echoed (selection_dto (Domain.category (pos 0) false)))
    ≡ normalize_selection (Domain.category (pos 0) false)
to_domain-selection_dto_example = to_domain-selection_dto (Domain.category (pos 0) false)
