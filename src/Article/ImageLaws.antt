-- ===== src/Article/ImageLaws.antt =====
-- The image of an article that rust-core/src/article.rs finds.
use flux_bar.Prelude.{
  ◌≡◌, refl, ◌⊎◌, inl, inr, not, ◌&&◌, ◌||◌, Option, none, some, List, [], ◌∷◌, String, ◌==◌,
  eq_iff, Bool-cases, ℕ,
}
use flux_bar.Text.{is_empty, trim, starts_with, to_ascii_lowercase}
use flux_bar.Article.Dom.{
  Attribute, Node, Nodes, Template, element, text, other, no_nodes, node_and, no_template, template,
  UrlPackage,
}
use flux_bar.Article.Extract.{
  first_text, web_url, parse_or_join, resolve_image_url_with_base, attribute_url, own_url,
  candidate_of, tiny_image, first_image_url, children_url, template_url, image_attributes, extract,
  extract_dom, EnclosureInput, first_enclosure, media_type,
}

module _ (urls : UrlPackage) where
  -- No image, or the text of an http or https URL.
  abbrev pub IsWebImage : String → Type 0
  IsWebImage image =
      (image ≡ "")
      ⊎ ((url : urls.Url) × (image ≡ urls.to_text url)
          × ((urls.scheme url ≡ "http") ⊎ (urls.scheme url ≡ "https")))

  first_text-IsWebImage :
      (value later : String)
      → IsWebImage value
      → IsWebImage later
      → IsWebImage (first_text value later)
  first_text-IsWebImage value later h k = elim (Bool-cases (is_empty value)) [
    | inl none_here ↦ rw none_here k
    | inr found ↦ rw found h
  ]

  web_url-IsWebImage : (url : Option urls.Url) → IsWebImage (web_url urls url)
  unfolding web_url
  web_url-IsWebImage none = inl refl
  web_url-IsWebImage (some url) = elim (Bool-cases (urls.scheme url == "http")) [
    | inl http ↦ rw http (inr (url, refl, inl ((eq_iff (urls.scheme url) "http").0 http)))
    | inr plain ↦ elim (Bool-cases (urls.scheme url == "https")) [
      | inl https ↦
          rw (plain, https) (inr (url, refl, inr ((eq_iff (urls.scheme url) "https").0 https)))
      | inr neither ↦ rw (plain, neither) (inl refl)
    ]
  ]

  -- Whatever the candidate is, what it resolves to is empty or a web URL.
  pub resolve_image_url_with_base-IsWebImage :
      (candidate : String) (base : Option urls.Url)
      → IsWebImage (resolve_image_url_with_base urls candidate base)
  unfolding resolve_image_url_with_base
  resolve_image_url_with_base-IsWebImage candidate base =
      elim (Bool-cases
        (is_empty (trim candidate) || starts_with "data:" (to_ascii_lowercase (trim candidate)))) [
          | inl refused ↦ rw refused (inl refl)
          | inr tried ↦ rw tried (web_url-IsWebImage (parse_or_join urls base (trim candidate)))
        ]

  attribute_url-IsWebImage :
      (base : Option urls.Url) (attrs : List Attribute) (names : List String)
      → IsWebImage (attribute_url urls base attrs names)
  unfolding attribute_url
  attribute_url-IsWebImage base attrs [] = inl refl
  attribute_url-IsWebImage base attrs (name ∷ names) =
      first_text-IsWebImage (resolve_image_url_with_base urls (candidate_of urls attrs name) base)
        (attribute_url urls base attrs names)
        (resolve_image_url_with_base-IsWebImage (candidate_of urls attrs name) base)
        (attribute_url-IsWebImage base attrs names)

  own_url-IsWebImage :
      (base : Option urls.Url) (tag : String) (attrs : List Attribute)
      → IsWebImage (own_url urls base tag attrs)
  unfolding own_url
  own_url-IsWebImage base tag attrs =
      elim (Bool-cases ((tag == "img" || tag == "source") && not (tiny_image attrs))) [
        | inl image ↦ rw image (attribute_url-IsWebImage base attrs image_attributes)
        | inr skipped ↦ rw skipped (inl refl)
      ]

  mutual
    unfolding first_image_url children_url template_url

    first_image_url-IsWebImage :
        (base : Option urls.Url) (node : Node) → IsWebImage (first_image_url urls base node)
    first_image_url-IsWebImage base (element tag attrs children contents) =
        first_text-IsWebImage (own_url urls base tag attrs) _ (own_url-IsWebImage base tag attrs) (
          first_text-IsWebImage (children_url urls base children) (template_url urls base contents)
            (children_url-IsWebImage base children) (template_url-IsWebImage base contents))
    first_image_url-IsWebImage base (text _) = inl refl
    first_image_url-IsWebImage base (other children) = children_url-IsWebImage base children

    children_url-IsWebImage :
        (base : Option urls.Url) (nodes : Nodes) → IsWebImage (children_url urls base nodes)
    children_url-IsWebImage base no_nodes = inl refl
    children_url-IsWebImage base (node_and child rest) =
        first_text-IsWebImage (first_image_url urls base child) (children_url urls base rest)
          (first_image_url-IsWebImage base child) (children_url-IsWebImage base rest)

    template_url-IsWebImage :
        (base : Option urls.Url) (contents : Template)
        → IsWebImage (template_url urls base contents)
    template_url-IsWebImage base no_template = inl refl
    template_url-IsWebImage base (template contents) = first_image_url-IsWebImage base contents

  pub first_enclosure-IsWebImage :
      (base : Option urls.Url) (enclosures : List EnclosureInput)
      → IsWebImage (first_enclosure urls base enclosures)
  unfolding first_enclosure
  first_enclosure-IsWebImage base [] = inl refl
  first_enclosure-IsWebImage base (e ∷ enclosures) =
      elim (Bool-cases (starts_with "image/" (media_type urls e.mime_type))) [
        | inl image ↦ rw image (
            first_text-IsWebImage (resolve_image_url_with_base urls e.url base)
              (first_enclosure urls base enclosures)
              (resolve_image_url_with_base-IsWebImage e.url base)
              (first_enclosure-IsWebImage base enclosures))
        | inr skipped ↦ rw skipped (first_enclosure-IsWebImage base enclosures)
      ]

  extract_dom-IsWebImage :
      (parse_html : String → Option Node) (value : String) (base : Option urls.Url) (limit : ℕ)
      (dom : Option Node)
      → IsWebImage (extract_dom urls parse_html value base limit dom).image_url
  unfolding extract_dom
  extract_dom-IsWebImage parse_html value base limit none = inl refl
  extract_dom-IsWebImage parse_html value base limit (some dom) =
      first_image_url-IsWebImage base dom

  pub extract-IsWebImage :
      (parse_html : String → Option Node) (value base_url : String) (limit : ℕ)
      → IsWebImage (extract urls parse_html value base_url limit).image_url
  unfolding extract
  extract-IsWebImage parse_html value base_url limit = elim (Bool-cases (is_empty (trim value))) [
    | inl blank ↦ rw blank (inl refl)
    | inr content ↦
        rw content
          (extract_dom-IsWebImage parse_html value (urls.parse base_url) limit (parse_html value))
  ]
