-- ===== src/Article/Dom.antt =====
-- The part of the tree of `markup5ever_rcdom` that article.rs reads, and the interface of the `url`
-- package.
use flux_bar.Prelude.{Option, none, some, List, [], ◌∷◌, String, ◌==◌, if◌then◌else◌}
use flux_bar.Text.{trim}

pub record Attribute : Type 0 where
  pub name : String
  pub value : String

mutual
  -- `NodeData`: an element with its template contents, a text, or another node.
  pub data Node : Type 0 where
    element : String → List Attribute → Nodes → Template → Node
    text : String → Node
    other : Nodes → Node

  pub data Nodes : Type 0 where
    no_nodes : Nodes
    node_and : Node → Nodes → Nodes

  pub data Template : Type 0 where
    no_template : Template
    template : Node → Template

-- The value of the first attribute with the name, trimmed.
unfoldable pub attribute : List Attribute → String → Option String
attribute [] name = none
attribute (a ∷ attrs) name =
    let rest = attribute attrs name in if a.name == name then some (trim a.value) else rest

-- `url::Url`: `parse`, `join`, `scheme` and `to_string`.
pub record UrlPackage : Type 1 where
  pub Url : Type 0
  pub parse : String → Option Url
  pub join : Url → String → Option Url
  pub scheme : Url → String
  pub to_text : Url → String
