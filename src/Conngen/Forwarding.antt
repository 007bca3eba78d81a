-- ===== src/Conngen/Forwarding.antt =====
-- A variant takes the parameters of its function without the Queryable, and hands each of them on.
use go_bootstrap.Prelude.{
  ℕ, suc, ◌+◌, ◌<◌, String, ◌≡◌, refl, ap, sym, ◌∙◌, Bool, true, false, some, List, [], ◌∷◌, ◌++◌,
  append_assoc, arith, any, length, nat_eq, Bool-cases, inl, inr,
}
use go_bootstrap.Errors.{Result, ok}
use go_bootstrap.Conngen.{
  Expr, Field, File, FuncDecl, is_queryable, queryable_from, queryable_field, is_single,
  is_variadic, forwarded, call_args, printed, print_fields,
}

-- the arguments for some fields, and their printed parameters
abbrev pub arguments : List Field → List String
arguments [] = []
arguments (field ∷ fields) = forwarded (is_variadic field.of_type) field.names ++ arguments fields

abbrev pub parameters : (Expr → Result String) → List Field → Result (List String)
parameters print_expr [] = ok []
parameters print_expr (field ∷ fields) =
    printed print_expr (λ _. true) field (print_expr field.of_type) (parameters print_expr fields)

-- The field of the Queryable: the first one of its type, which has one name.
pub record IsFound (q : Expr → Bool) (i j : ℕ) (fields : List Field) : Type 0 where
  pub before : List Field
  pub field : Field
  pub after : List Field
  pub name : String
  pub split_eq : fields ≡ before ++ field ∷ after
  pub single : field.names ≡ name ∷ []
  pub queryable : q field.of_type ≡ true
  pub first : any (λ (f : Field). q f.of_type) before ≡ false
  pub index : j ≡ i + length before

is_single-single :
    (names : List String) → is_single names ≡ true → (name : String) × (names ≡ name ∷ [])
is_single-single [] h = cc
is_single-single (name ∷ []) h = (name, refl)
is_single-single (name ∷ other ∷ names) h = cc

queryable_from-IsFound :
    (q : Expr → Bool) (i j : ℕ) (fields : List Field)
    → queryable_from q i fields ≡ some j
    → IsFound q i j fields
unfolding queryable_from
queryable_from-IsFound q i j [] h = cc
queryable_from-IsFound q i j (field ∷ fields) h = elim (Bool-cases (q field.of_type)) [
  | inl here ↦ elim (Bool-cases (is_single field.names)) [
    | inl one ↦
        let (name, single) = is_single-single field.names one in
        record {
          before = [];
          field = field;
          after = fields;
          name = name;
          split_eq = refl;
          single = single;
          queryable = here;
          first = refl;
          index = ground arith;
        }
    | inr many ↦ absurd (ground arith)
  ]
  | inr there ↦
      let rest = queryable_from-IsFound q (suc i) j fields (rw there at h) in
      record {
        before = field ∷ rest.before;
        field = rest.field;
        after = rest.after;
        name = rest.name;
        split_eq = ap (λ l. field ∷ l) rest.split_eq;
        single = rest.single;
        queryable = rest.queryable;
        first = rw (there, rest.first) refl;
        index = omega (arith, rest.index);
      }
]

call_args-past :
    (i j : ℕ) (fields : List Field) (conn : String)
    → j < i
    → call_args i fields j conn ≡ arguments fields
unfolding call_args
call_args-past i j [] conn h = refl
call_args-past i j (field ∷ fields) conn h =
    let past : nat_eq i j ≡ false = ground arith in
    rw (past, call_args-past (suc i) j fields conn (omega arith)) refl

call_args-at :
    (i j : ℕ) (before : List Field) (field : Field) (after : List Field) (conn : String)
    → j ≡ i + length before
    → call_args i (before ++ field ∷ after) j conn ≡ arguments before ++ conn ∷ arguments after
unfolding call_args
call_args-at i j [] field after conn h =
    let here : nat_eq i j ≡ true = ground arith in
    rw (here, call_args-past (suc i) j after conn (omega arith)) refl
call_args-at i j (f ∷ before) field after conn h =
    let there : nat_eq i j ≡ false = ground arith in
    rw (there, call_args-at (suc i) j before field after conn (omega arith))
      (sym (
        append_assoc (forwarded (is_variadic f.of_type) f.names) (arguments before)
          (conn ∷ arguments after)))

module _ (print_expr : Expr → Result String) (is_exported : String → Bool) where
  print_fields-past :
      (i j : ℕ) (fields : List Field)
      → j < i
      → print_fields print_expr is_exported i fields j ≡ parameters print_expr fields
  unfolding print_fields
  print_fields-past i j [] h = refl
  print_fields-past i j (field ∷ fields) h =
      let past : nat_eq i j ≡ false = ground arith in
      rw (past, print_fields-past (suc i) j fields (omega arith)) refl

  print_fields-at :
      (i j : ℕ) (before : List Field) (field : Field) (after : List Field)
      → j ≡ i + length before
      → print_fields print_expr is_exported i (before ++ field ∷ after) j
        ≡ parameters print_expr (before ++ after)
  unfolding print_fields
  print_fields-at i j [] field after h =
      let here : nat_eq i j ≡ true = ground arith in
      rw (here, print_fields-past (suc i) j after (omega arith)) refl
  print_fields-at i j (f ∷ before) field after h =
      let there : nat_eq i j ≡ false = ground arith in
      rw (there, print_fields-at (suc i) j before field after (omega arith)) refl

  -- For a function with a Queryable at some index, there are the fields before it and after it, none
  -- of those before is a Queryable, and it has one name; the variant's parameters are those of the
  -- fields before and after, and its call passes the names of the fields before, the pool, and the
  -- names of the fields after, in this order.
  pub queryable_field-forwards :
      (file : File) (package_name conn : String) (fn : FuncDecl) (j : ℕ)
      → queryable_field file package_name fn ≡ some j
      → (split : IsFound (is_queryable file package_name) 0 j fn.params) × (print_fields print_expr
            is_exported 0 fn.params j
          ≡ parameters print_expr (split.before ++ split.after))
        × (call_args 0 fn.params j conn ≡ arguments split.before ++ conn ∷ arguments split.after)
  unfolding queryable_field
  queryable_field-forwards file package_name conn fn j h =
      let split = queryable_from-IsFound (is_queryable file package_name) 0 j fn.params h in
      (
        split,
        ap (λ l. print_fields print_expr is_exported 0 l j) split.split_eq
            ∙ print_fields-at 0 j split.before split.field split.after split.index,
        ap (λ l. call_args 0 l j conn) split.split_eq
            ∙ call_args-at 0 j split.before split.field split.after conn split.index,
      )
