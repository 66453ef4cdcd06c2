-- ===== src/Tool/Names.antt =====
-- The registry of pkg/tool/registry.go as a search of the list of tools that it was made from.
use galdor.Prelude.{
  String, false, Option, none, some, Bool-cases, Result-cases, ok, List, [], ◌∷◌, ◌≡◌, inl, inr,
  refl, sym, ap, subst, ◌∙◌, ◌==◌, eq_iff, if◌then◌else◌, lookup, has, insert, lookup-insert, Assoc,
  is_some,
}
use galdor.Tool.{Tool, Registry, add, add_all, new_registry, get}

module _ {Ctx W X : Type 0} where
  -- The first tool of a list that has this name.
  unfoldable pub find_tool : String → List (Option (Tool Ctx W X)) → Option (Tool Ctx W X)
  find_tool name [] = none
  find_tool name (none ∷ ts) = find_tool name ts
  find_tool name (some t ∷ ts) = if t.name == name then some t else find_tool name ts

  abbrev first_of : Option (Tool Ctx W X) → Option (Tool Ctx W X) → Option (Tool Ctx W X)
  first_of (some t) o = some t
  first_of none o = o

  add-inv :
      (t : Option (Tool Ctx W X)) (r r' : Registry Ctx W X)
      → add t r ≡ ok r'
      → (u : Tool Ctx W X) × (t ≡ some u)
        × (has u.name r.tools ≡ false)
        × (r'.tools ≡ insert u.name u r.tools)
  unfolding add
  add-inv none r r' h = cc
  add-inv (some t) r r' h = elim (Bool-cases (t.name == "")) [
    | inl e ↦ cc (rw (e, add) at h)
    | inr e ↦ elim (Bool-cases (has t.name r.tools)) [
      | inl d ↦ cc (rw (e, d, add) at h)
      | inr d ↦
          let same : record r { tools = insert t.name t r.tools } ≡ r' = cc (rw (e, d, add) at h) in
          (t, refl, d, ap (λ (x : Registry Ctx W X). x.tools) (sym same))
    ]
  ]

  first_of-none : (o : Option (Tool Ctx W X)) → o ≡ first_of o none
  first_of-none none = refl
  first_of-none (some t) = refl

  first_of-insert :
      (u : Tool Ctx W X) (ts : List (Option (Tool Ctx W X))) (m : Assoc (Tool Ctx W X))
      (name : String)
      → has u.name m ≡ false
      → first_of (lookup name (insert u.name u m)) (find_tool name ts)
        ≡ first_of (lookup name m) (find_tool name (some u ∷ ts))
  unfolding find_tool has
  first_of-insert u ts m name free = elim (Bool-cases (u.name == name)) [
    | inr d ↦ rw (lookup-insert u.name name u m, d, find_tool) refl
    | inl e ↦
        let absent : lookup name m ≡ none =
          none_of (lookup name m) (subst (λ k. has k m ≡ false) ((eq_iff u.name name).0 e) free) in
        rw (lookup-insert u.name name u m, e, find_tool, absent) refl
  ]
    where
      none_of : (o : Option (Tool Ctx W X)) → is_some o ≡ false → o ≡ none
      none_of none h = refl
      none_of (some t) h = cc

  get-add_all :
      (ts : List (Option (Tool Ctx W X))) (r r' : Registry Ctx W X) (name : String)
      → add_all ts r ≡ ok r'
      → lookup name r'.tools ≡ first_of (lookup name r.tools) (find_tool name ts)
  unfolding add_all find_tool has
  get-add_all [] r r' name h =
      let same : r ≡ r' = cc h in
      ap (λ (x : Registry Ctx W X). lookup name x.tools) (sym same)
      ∙ first_of-none (lookup name r.tools)
  get-add_all (t ∷ ts) r r' name h = elim (Result-cases (add t r)) [
    | inr (e, q) ↦ cc (rw (q, add_all) at h)
    | inl (r1, q) ↦
        let (u, is, free, made) = add-inv t r r1 q in
        let rest = get-add_all ts r1 r' name (rw (q, add_all) at h) in
        rest
        ∙ ap (λ m. first_of (lookup name m) (find_tool name ts)) made
        ∙ first_of-insert u ts r.tools name free
        ∙ ap (λ x. first_of (lookup name r.tools) (find_tool name (x ∷ ts))) (sym is)
  ]

  -- A registry made of a list finds for a name the first tool of the list that has it, if there is one.
  pub get-new_registry :
      (ts : List (Option (Tool Ctx W X))) (r : Registry Ctx W X) (name : String)
      → new_registry ts ≡ ok r
      → get r name ≡ find_tool name ts
  unfolding new_registry get lookup
  get-new_registry ts r name h = get-add_all ts (record { tools = [] }) r name h
