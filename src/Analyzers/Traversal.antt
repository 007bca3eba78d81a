-- ===== src/Analyzers/Traversal.antt =====
-- ast.Inspect against the list of a tree's nodes, in the order in which they are visited.
use go_bootstrap.Prelude.{
  ◌≡◌, refl, Bool, true, List, [], ◌∷◌, ◌++◌, append-nil, append_assoc, concat_map,
  concat_map-append, ◌∙◌, sym, ap, if◌then◌else◌,
}
use go_bootstrap.Analyzers.{
  Node, Nodes, ident, selector, call, func_decl, func_decl_without_body, other, end, ◌▸◌, inspect,
  inspect_all,
}

unfoldable mutual
  pub nodes : Node → List Node
  nodes (ident i) = ident i ∷ []
  nodes (selector x sel) = selector x sel ∷ nodes x ++ ident sel ∷ []
  nodes (call pos fun args) = call pos fun args ∷ nodes fun ++ nodes_all args
  nodes (func_decl fn header body) = func_decl fn header body ∷ nodes_all header ++ nodes body
  nodes (func_decl_without_body fn header) = func_decl_without_body fn header ∷ nodes_all header
  nodes (other children) = other children ∷ nodes_all children

  pub nodes_all : Nodes → List Node
  nodes_all end = []
  nodes_all (n ▸ ns) = nodes n ++ nodes_all ns

module _ {R : Type 0} (visit : Node → List R → List R × Bool) (found : Node → List R)
    (visits : (n : Node) (reports : List R) → visit n reports ≡ (reports ++ found n, true)) where
  gathered :
      (reports here : List R) (ms ns : List Node) (rest : List R)
      → rest ≡ concat_map found ns
      → ((reports ++ here) ++ concat_map found ms) ++ rest
        ≡ reports ++ (here ++ concat_map found (ms ++ ns))
  gathered reports here ms ns rest h = simp (h, concat_map-append found ms ns, append_assoc)

  -- A visit that asks for the children of every node and adds what it finds collects what is found at
  -- each node, in the order of the nodes.
  mutual
    unfolding inspect nodes

    pub inspect-collects :
        (n : Node) (reports : List R)
        → inspect visit n reports ≡ reports ++ concat_map found (nodes n)
    inspect-collects (ident i) reports =
        ap (λ r. r.0) (visits (ident i) reports) ∙ rw (append-nil (found (ident i))) refl
    inspect-collects (selector x sel) reports =
        let node = selector x sel in
        let first = reports ++ found node in
        ap (λ r. if r.1 then (visit (ident sel) (inspect visit x r.0)).0 else r.0)
          (visits node reports)
        ∙ (ap (λ r. (visit (ident sel) r).0) (inspect-collects x first)
            ∙ (ap (λ r. r.0) (visits (ident sel) (first ++ concat_map found (nodes x)))
                ∙ gathered reports (found node) (nodes x) (ident sel ∷ []) (found (ident sel))
                    (sym (append-nil (found (ident sel))))))
    inspect-collects (call pos fun args) reports =
        let node = call pos fun args in
        let first = reports ++ found node in
        ap (λ r. if r.1 then inspect_all visit args (inspect visit fun r.0) else r.0)
          (visits node reports)
        ∙ (ap (inspect_all visit args) (inspect-collects fun first)
            ∙ (inspect_all-collects args (first ++ concat_map found (nodes fun))
                ∙ gathered reports (found node) (nodes fun) (nodes_all args) _ refl))
    inspect-collects (func_decl fn header body) reports =
        let node = func_decl fn header body in
        let first = reports ++ found node in
        ap (λ r. if r.1 then inspect visit body (inspect_all visit header r.0) else r.0)
          (visits node reports)
        ∙ (ap (inspect visit body) (inspect_all-collects header first)
            ∙ (inspect-collects body (first ++ concat_map found (nodes_all header))
                ∙ gathered reports (found node) (nodes_all header) (nodes body) _ refl))
    inspect-collects (func_decl_without_body fn header) reports =
        let node = func_decl_without_body fn header in
        ap (λ r. if r.1 then inspect_all visit header r.0 else r.0) (visits node reports)
        ∙ (inspect_all-collects header (reports ++ found node)
            ∙ append_assoc reports (found node) (concat_map found (nodes_all header)))
    inspect-collects (other children) reports =
        let node = other children in
        ap (λ r. if r.1 then inspect_all visit children r.0 else r.0) (visits node reports)
        ∙ (inspect_all-collects children (reports ++ found node)
            ∙ append_assoc reports (found node) (concat_map found (nodes_all children)))

    inspect_all-collects :
        (ns : Nodes) (reports : List R)
        → inspect_all visit ns reports ≡ reports ++ concat_map found (nodes_all ns)
    inspect_all-collects end reports = sym (append-nil reports)
    inspect_all-collects (n ▸ ns) reports =
        ap (inspect_all visit ns) (inspect-collects n reports)
        ∙ (inspect_all-collects ns (reports ++ concat_map found (nodes n))
            ∙ (append_assoc reports (concat_map found (nodes n)) (concat_map found (nodes_all ns))
                ∙ ap (λ l. reports ++ l) (sym (concat_map-append found (nodes n) (nodes_all ns)))))

  -- the same in front of what the files behind it hold
  pub inspect-before :
      (n : Node) (reports rest : List R)
      → inspect visit n reports ++ rest ≡ reports ++ (concat_map found (nodes n) ++ rest)
  inspect-before n reports rest =
      ap (λ l. l ++ rest) (inspect-collects n reports)
      ∙ append_assoc reports (concat_map found (nodes n)) rest
