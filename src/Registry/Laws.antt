-- ===== src/Registry/Laws.antt =====
-- src/builtin_registry.rs: the names and the ids of the builtins.
use tsumugi.Base.{
  ◌≡◌, ◌↔◌, refl, ap, sym, ◌∙◌, Bool, true, ◌&&◌, some, List, [], ◌∷◌, arith, Option-cases,
  Bool-cases, inl, inr, same_text, same_text-eq,
}
use tsumugi.Audit.Payload.{Text}
use tsumugi.Registry.{
  BuiltinId, BuiltinSpec, discriminant, public_builtins, find_name, lookup_public, id_of,
  is_registered, name_of,
}

-- Every id finds its entry, and the entry's name finds the id.
name_of-id_of : (id : BuiltinId) → (id_of (name_of id) ≡ some id) × (is_registered id ≡ true)
unfolding id_of name_of is_registered discriminant same_text
name_of-id_of BuiltinId.len = (refl, refl)
name_of-id_of _ = (refl, refl)

every : (BuiltinSpec → Bool) → List BuiltinSpec → Bool
every p [] = true
every p (s ∷ ss) = p s && every p ss

find_name-every :
    (p : BuiltinSpec → Bool) (name : Text) (ss : List BuiltinSpec) (s : BuiltinSpec)
    → every p ss ≡ true
    → find_name name ss ≡ some s
    → (s.name ≡ name) × (p s ≡ true)
unfolding every find_name
find_name-every p name [] s h e = cc
find_name-every p name (x ∷ xs) s h e = elim (Bool-cases (same_text x.name name)) [
  | inl b ↦
      let found : some x ≡ some s = rw b at e in
      let same = same_text-eq x.name name b in ground (arith, found, same)
  | inr b ↦
      let rest : find_name name xs ≡ some s = rw b at e in
      find_name-every p name xs s (ground (arith, h)) rest
]

named_back : BuiltinSpec → Bool
unfolding name_of
named_back s = same_text (name_of s.id) s.name

all_named_back : every named_back public_builtins ≡ true
unfolding every named_back name_of discriminant same_text
all_named_back = refl

id_of-name : (name : Text) (id : BuiltinId) → id_of name ≡ some id → name_of id ≡ name
unfolding id_of lookup_public named_back
id_of-name name id e = elim (Option-cases (find_name name public_builtins)) [
  | inl n ↦ ground (arith, e, n)
  | inr (s, f) ↦
      let (same, back) = find_name-every named_back name public_builtins s all_named_back f in
      let id_same : s.id ≡ id = ground (arith, e, f) in
      rw (← id_same) (same_text-eq (name_of s.id) s.name back ∙ same)
]

-- A name has an id exactly if it is the name of that id, and every id is registered.
pub id_of_iff :
    (name : Text) (id : BuiltinId)
    → ((id_of name ≡ some id) ↔ (name_of id ≡ name)) × (is_registered id ≡ true)
id_of_iff name id =
    ((id_of-name name id, λ e. ap id_of (sym e) ∙ (name_of-id_of id).0), (name_of-id_of id).1)
