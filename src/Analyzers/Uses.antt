-- ===== src/Analyzers/Uses.antt =====
-- usedIn of txparam: the search of a body that stops at the first use.
use go_bootstrap.Prelude.{
  ◌≡◌, refl, Bool, true, false, ◌||◌, [], ◌∷◌, any, any-append, Bool-cases, inl, inr, ◌∙◌, ap, sym,
  arith,
}
use go_bootstrap.Analyzers.{
  Object, is_object, object_id, Ident, Node, Nodes, ident, selector, call, func_decl,
  func_decl_without_body, other, end, ◌▸◌, inspect, inspect_all,
}
use go_bootstrap.Analyzers.Rules.{visit_use, used_in}
use go_bootstrap.Analyzers.Traversal.{nodes, nodes_all}

module _ (obj : Object) where
  -- an identifier that denotes the object
  abbrev pub mentions : Node → Bool
  mentions (ident i) = is_object (object_id obj) i.uses
  mentions (selector x sel) = false
  mentions (call pos fun args) = false
  mentions (func_decl fn header body) = false
  mentions (func_decl_without_body fn header) = false
  mentions (other children) = false

  visit_ident :
      (i : Ident) (used : Bool)
      → (visit_use obj (ident i) used).0 ≡ (used || is_object (object_id obj) i.uses)
  unfolding visit_use
  visit_ident i used = elim (Bool-cases (is_object (object_id obj) i.uses)) [
    | inl there ↦ ground (arith, there)
    | inr absent ↦ ground (arith, absent)
  ]

  found_already : (n : Node) → inspect (visit_use obj) n true ≡ true
  unfolding inspect visit_use
  found_already (ident i) = visit_ident i true
  found_already (selector x sel) = refl
  found_already (call pos fun args) = refl
  found_already (func_decl fn header body) = refl
  found_already (func_decl_without_body fn header) = refl
  found_already (other children) = refl

  -- The traversal that stops early finds what a search of every node finds.
  mutual
    unfolding inspect visit_use nodes

    inspect-mentions :
        (n : Node) (used : Bool)
        → inspect (visit_use obj) n used ≡ (used || any (mentions) (nodes n))
    inspect-mentions n true = found_already n
    inspect-mentions (ident i) false = visit_ident i false ∙ ground arith
    inspect-mentions (selector x sel) false =
        ap (λ b. (visit_use obj (ident sel) b).0) (inspect-mentions x false)
        ∙ (visit_ident sel (any mentions (nodes x))
            ∙ ground (arith, any-append mentions (nodes x) (ident sel ∷ [])))
    inspect-mentions (call pos fun args) false =
        ap (inspect_all (visit_use obj) args) (inspect-mentions fun false)
        ∙ (inspect_all-mentions args (any mentions (nodes fun))
            ∙ sym (any-append mentions (nodes fun) (nodes_all args)))
    inspect-mentions (func_decl fn header body) false =
        ap (inspect (visit_use obj) body) (inspect_all-mentions header false)
        ∙ (inspect-mentions body (any mentions (nodes_all header))
            ∙ sym (any-append mentions (nodes_all header) (nodes body)))
    inspect-mentions (func_decl_without_body fn header) false = inspect_all-mentions header false
    inspect-mentions (other children) false = inspect_all-mentions children false

    inspect_all-mentions :
        (ns : Nodes) (used : Bool)
        → inspect_all (visit_use obj) ns used ≡ (used || any mentions (nodes_all ns))
    inspect_all-mentions end used = ground arith
    inspect_all-mentions (n ▸ ns) used =
        ap (inspect_all (visit_use obj) ns) (inspect-mentions n used)
        ∙ (inspect_all-mentions ns (used || any mentions (nodes n))
            ∙ ground (arith, any-append mentions (nodes n) (nodes_all ns)))

  pub used_in_lem : (body : Node) → used_in body obj ≡ any mentions (nodes body)
  unfolding used_in
  used_in_lem body = inspect-mentions body false
