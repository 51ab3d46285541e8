-- ===== src/Article/Extract.antt =====
-- `extract` of rust-core/src/article.rs and its helpers.
use Prim.Native.String.{count, ◌++◌ as ◌+++◌}
use flux_bar.Prelude.{
  ℕ, ◌-◌, Bool, false, not, ◌&&◌, ◌||◌, Option, none, some, List, [], ◌∷◌, map, String, ◌==◌, leb,
  nat_eq, if◌then◌else◌, ℤ, pos, leb_ℤ,
}
use flux_bar.Text.{
  is_code, is_empty, split_by, without_empty, split_whitespace, join, trim, trim_end, take_chars,
  to_ascii_lowercase, starts_with, trim_end_pair,
}
use flux_bar.Text.Numbers.{parse_i32}
use flux_bar.Article.Dom.{
  Attribute, Node, Nodes, Template, element, text, other, no_nodes, node_and, no_template, template,
  attribute, UrlPackage,
}

abbrev pub preview_limit : ℕ
preview_limit = 600

pub record Preview : Type 0 where
  pub text : String
  pub image_url : String

pub record EnclosureInput : Type 0 where
  pub url : String
  pub mime_type : String

abbrev pub ignored_elements : List String
ignored_elements = "head" ∷ "noscript" ∷ "script" ∷ "style" ∷ "template" ∷ []

abbrev pub block_elements : List String
block_elements =
    "address" ∷ "article" ∷ "aside" ∷ "blockquote" ∷ "div" ∷ "figcaption" ∷ "figure" ∷ "footer"
    ∷ "h1" ∷ "h2" ∷ "h3" ∷ "h4" ∷ "h5" ∷ "h6" ∷ "header" ∷ "li" ∷ "main" ∷ "nav" ∷ "p" ∷ "pre"
    ∷ "section" ∷ "table" ∷ "td" ∷ "th" ∷ "tr" ∷ []

abbrev pub image_attributes : List String
image_attributes = "data-src" ∷ "data-original" ∷ "src" ∷ "data-srcset" ∷ "srcset" ∷ []

unfoldable pub contains : String → List String → Bool
contains name [] = false
contains name (x ∷ xs) = let rest = contains name xs in x == name || rest

unfoldable pub collapse_whitespace : String → String
collapse_whitespace value = join " " (split_whitespace value)

unfoldable pub truncate : String → ℕ → String
truncate value limit =
    if nat_eq limit 0 || leb (count value) limit
    then value
    else trim_end (take_chars (limit - 1) value) +++ "…"

unfoldable pub normalize_lines : String → ℕ → String
unfolding truncate
normalize_lines value limit =
    truncate (join "\n" (without_empty (map collapse_whitespace (split_by (is_code b'\n') value))))
      limit

abbrev pub block_break : String → String
block_break tag = if contains tag block_elements then "\n" else ""

-- The text of a `br`, or of an `img` with an `alt`.
unfoldable pub inline_text : String → List Attribute → String
inline_text tag attrs =
    if tag == "br"
    then "\n"
    else if tag == "img"
    then elim (attribute attrs "alt") [ none ↦ "" | some alt ↦ " " +++ (alt +++ " ") ]
    else ""

unfoldable mutual
  -- The text that `append_node_text` pushes for a node.
  pub node_text : Node → String
  node_text (element tag attrs children contents) =
      let inside = nodes_text children in
      if contains tag ignored_elements
      then ""
      else inline_text tag attrs +++ (block_break tag +++ (inside +++ block_break tag))
  node_text (text contents) = contents
  node_text (other children) = nodes_text children

  pub nodes_text : Nodes → String
  nodes_text no_nodes = ""
  nodes_text (node_and child rest) = node_text child +++ nodes_text rest

-- The first field of the last part that has one; the parts stand in their order.
unfoldable pub last_field : List String → String
last_field [] = ""
last_field (part ∷ parts) =
    let later = last_field parts in
    if is_empty later then elim (split_whitespace part) [ [] ↦ "" | field ∷ _ ↦ field ] else later

unfoldable pub srcset_url : String → String
unfolding last_field
srcset_url value = last_field (split_by (is_code b',') value)

unfoldable pub positive_dimension : String → Option ℤ
positive_dimension value = elim (parse_i32 (trim (trim_end_pair b'p' b'x' (trim value)))) [
  | none ↦ none
  | some d ↦ if leb_ℤ (pos 0) d then some d else none
]

abbrev pub is_small : Option ℤ → Bool
is_small none = false
is_small (some d) = leb_ℤ d (pos 2)

-- `attribute(attrs, name).as_deref().and_then(positive_dimension)`
unfoldable pub dimension : List Attribute → String → Option ℤ
dimension attrs name = elim (attribute attrs name) [
  | none ↦ none
  | some value ↦ positive_dimension value
]

unfoldable pub tiny_image : List Attribute → Bool
tiny_image attrs = is_small (dimension attrs "width") && is_small (dimension attrs "height")

-- The value, if it is there and not empty, and else the other one.
abbrev pub first_text : String → String → String
first_text value later = if is_empty value then later else value

module _ (urls : UrlPackage) where
  -- The scheme test, and the text of the URL.
  unfoldable pub web_url : Option urls.Url → String
  web_url none = ""
  web_url (some url) =
      if not (urls.scheme url == "http") && not (urls.scheme url == "https")
      then ""
      else urls.to_text url

  -- `parse`, or `join` with the base.
  unfoldable pub parse_or_join : Option urls.Url → String → Option urls.Url
  parse_or_join base candidate = elim (urls.parse candidate) [
    | some url ↦ some url
    | none ↦ elim base [ none ↦ none | some b ↦ urls.join b candidate ]
  ]

  unfoldable pub resolve_image_url_with_base : String → Option urls.Url → String
  unfolding web_url parse_or_join
  resolve_image_url_with_base candidate base =
      let trimmed = trim candidate in
      if is_empty trimmed || starts_with "data:" (to_ascii_lowercase trimmed)
      then ""
      else web_url (parse_or_join base trimmed)

  unfoldable pub resolve_image_url : String → String → String
  resolve_image_url candidate base_url = resolve_image_url_with_base candidate (urls.parse base_url)

  -- `enclosure.mime_type.split(';').next()`, trimmed and in lower case
  unfoldable pub media_type : String → String
  media_type mime = elim (split_by (is_code b';') mime) [
    | [] ↦ ""
    | first ∷ _ ↦ to_ascii_lowercase (trim first)
  ]

  unfoldable pub first_enclosure : Option urls.Url → List EnclosureInput → String
  unfolding resolve_image_url_with_base media_type
  first_enclosure base [] = ""
  first_enclosure base (enclosure ∷ enclosures) =
      let later = first_enclosure base enclosures in
      if starts_with "image/" (media_type enclosure.mime_type)
      then first_text (resolve_image_url_with_base enclosure.url base) later
      else later

  unfoldable pub first_image_enclosure_url : List EnclosureInput → String → String
  unfolding first_enclosure
  first_image_enclosure_url enclosures article_url =
      first_enclosure (urls.parse article_url) enclosures

  -- The candidate of one attribute; two of the names end with "srcset".
  unfoldable pub candidate_of : List Attribute → String → String
  candidate_of attrs name =
      let value : String = elim (attribute attrs name) [ none ↦ "" | some v ↦ v ] in
      if name == "data-srcset" || name == "srcset" then srcset_url value else value

  -- The loop over the names of the attributes.
  unfoldable pub attribute_url : Option urls.Url → List Attribute → List String → String
  unfolding resolve_image_url_with_base candidate_of
  attribute_url base attrs [] = ""
  attribute_url base attrs (name ∷ names) =
      first_text (resolve_image_url_with_base (candidate_of attrs name) base)
        (attribute_url base attrs names)

  unfoldable pub own_url : Option urls.Url → String → List Attribute → String
  unfolding attribute_url
  own_url base tag attrs =
      if (tag == "img" || tag == "source") && not (tiny_image attrs)
      then attribute_url base attrs image_attributes
      else ""

  unfoldable mutual
    pub first_image_url : Option urls.Url → Node → String
    first_image_url base (element tag attrs children contents) =
        first_text (own_url base tag attrs)
          (first_text (children_url base children) (template_url base contents))
    first_image_url base (text _) = ""
    first_image_url base (other children) = children_url base children

    -- The loop over the children.
    pub children_url : Option urls.Url → Nodes → String
    children_url base no_nodes = ""
    children_url base (node_and child rest) =
        first_text (first_image_url base child) (children_url base rest)

    pub template_url : Option urls.Url → Template → String
    template_url base no_template = ""
    template_url base (template contents) = first_image_url base contents

  -- `extract`, with `parse_html` as an argument: `none` is a panic of the parser.
  module _ (parse_html : String → Option Node) where
    unfoldable pub extract_dom : String → Option urls.Url → ℕ → Option Node → Preview
    extract_dom value base limit none = record {
      text = truncate (collapse_whitespace value) limit;
      image_url = "";
    }
    extract_dom value base limit (some dom) = record {
      text = normalize_lines (node_text dom) limit;
      image_url = first_image_url base dom;
    }

    unfoldable pub extract : String → String → ℕ → Preview
    unfolding extract_dom
    extract value base_url limit =
        if is_empty (trim value)
        then record { text = ""; image_url = "" }
        else extract_dom value (urls.parse base_url) limit (parse_html value)

    unfoldable pub plain_text : String → ℕ → String
    plain_text value limit = (extract value "" limit).text
