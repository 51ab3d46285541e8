-- ===== src/Transport/Routing.antt =====
-- The requests that `into_operation` accepts, and the selection that a response echoes.
use flux_bar.Prelude.{
  ◌≡◌, Result, ap, inl, inr, refl, sym, ◌∙◌, String, ◌==◌, eq_iff, arith, ok, Bool-cases,
  if◌then◌else◌, ok-injective,
}
use flux_bar.Domain.Selection as Domain
use flux_bar.Domain.Selection.{normalize}
use flux_bar.Store.Apply.{normalize_selection}
use flux_bar.Transport.Request.{
  Request, Selection, Operation, default_request, into_operation, operation_name, to_domain,
  unsupported,
}
use flux_bar.Transport.Request
use flux_bar.Transport.Response.{SelectionDto, selection_dto}

-- One arm of the match on the name.
arm :
    (r : Request) (op op' : Operation) (rest : Result String Operation) (name : String)
    → operation_name op' ≡ name
    → (rest ≡ ok op → operation_name op ≡ r.operation)
    → (if r.operation == name then ok op' else rest) ≡ ok op
    → operation_name op ≡ r.operation
arm r op op' rest name named others h = elim (Bool-cases (r.operation == name)) [
  | inl same ↦
      ap operation_name (sym (ok-injective (rw same at h)))
      ∙ named
      ∙ sym ((eq_iff r.operation name).0 same)
  | inr apart ↦ others (rw apart at h)
]

-- The operation that a request is routed to has the name that the request gives.
pub into_operation-name :
    (r : Request) (op : Operation) → into_operation r ≡ ok op → operation_name op ≡ r.operation
unfolding into_operation operation_name
into_operation-name r op h =
    arm r op _ _ "configure" refl
      (arm r op _ _ "local_snapshot" refl (
        arm r op _ _ "refresh" refl (
          arm r op _ _ "set_read" refl (
            arm r op _ _ "set_starred" refl (
              arm r op _ _ "undo_read" refl (
                arm r op _ _ "discard_undo" refl (
                  arm r op _ _ "flush_pending" refl (
                    arm r op _ _ "feed_icon" refl (
                      arm r op _ _ "localize" refl (
                        arm r op _ _ "localize_plural" refl (λ k.
                          elim (Bool-cases (r.operation == "")) [
                            | inl empty ↦ absurd (cc (rw empty at k))
                            | inr other ↦ absurd (cc (rw other at k))
                          ])))))))))))
      h

-- Every operation is what some request is routed to.
pub into_operation-reaches : (op : Operation) → (r : Request) × (into_operation r ≡ ok op)
unfolding into_operation
into_operation-reaches (Request.configure a b c d e) = (
  record default_request {
    operation = "configure";
    server = a;
    api_key = b;
    newest_first = c;
    configuration_generation = d;
    locales = e;
  },
  refl,
)
into_operation-reaches (Request.local_snapshot s ids) = (
  record default_request { operation = "local_snapshot"; selection = s; retain_entry_ids = ids },
  refl,
)
into_operation-reaches (Request.refresh s ids) =
    (record default_request { operation = "refresh"; selection = s; retain_entry_ids = ids }, refl)
into_operation-reaches (Request.set_read s id ids retain read source) = (
  record default_request {
    operation = "set_read";
    selection = s;
    entry_id = id;
    entry_ids = ids;
    retain_entry_ids = retain;
    read = read;
    mutation_source = source;
  },
  refl,
)
into_operation-reaches (Request.set_starred s id retain starred) = (
  record default_request {
    operation = "set_starred";
    selection = s;
    entry_id = id;
    retain_entry_ids = retain;
    desired_starred = starred;
  },
  refl,
)
into_operation-reaches (Request.undo_read s id retain) = (
  record default_request {
    operation = "undo_read";
    selection = s;
    mutation_id = id;
    retain_entry_ids = retain;
  },
  refl,
)
into_operation-reaches (Request.discard_undo id) =
    (record default_request { operation = "discard_undo"; mutation_id = id }, refl)
into_operation-reaches (Request.flush_pending s ids) = (
  record default_request { operation = "flush_pending"; selection = s; retain_entry_ids = ids },
  refl,
)
into_operation-reaches (Request.feed_icon id name) =
    (record default_request { operation = "feed_icon"; feed_id = id; feed_name = name }, refl)
into_operation-reaches (Request.localize locales key fallback) = (
  record default_request {
    operation = "localize";
    locales = locales;
    key = key;
    fallback = fallback;
  },
  refl,
)
into_operation-reaches (Request.localize_plural locales key one other count) = (
  record default_request {
    operation = "localize_plural";
    locales = locales;
    key = key;
    one_fallback = one;
    other_fallback = other;
    count = count;
  },
  refl,
)

-- The selection that a response echoes, sent back in a request.
unfoldable pub echoed : SelectionDto → Selection
echoed s = record { kind = s.kind; id = s.id; unread_only = s.unread_only }

-- An echoed selection means the same as the store's normalization of it: an invalid category or feed
-- is everything unread, and any other selection is itself.
pub to_domain-selection_dto :
    (s : Domain.Selection) → to_domain (echoed (selection_dto s)) ≡ normalize_selection s
unfolding to_domain echoed selection_dto normalize normalize_selection
to_domain-selection_dto (Domain.all id only) = refl
to_domain-selection_dto (Domain.unread only) = refl
to_domain-selection_dto (Domain.starred only) = refl
to_domain-selection_dto (Domain.category id only) = ground arith
to_domain-selection_dto (Domain.feed id only) = ground arith
