-- ===== src/Notifications/Registry/Lookup.antt =====
-- What a registry built from a list of objects finds.
use web_checker_py.Prelude.{
  false, Option, none, some, List, [], ◌∷◌, ◌++◌, find, any, All, All-map, Text, strip, is_nil,
  ◌==◌, text_eq, beq_refl, ok, err, raise_if-eq-ok, bind-eq-ok, ◌≡◌, arith, ap, subst, Bool-cases,
  inl, inr,
}
use web_checker_py.Notifications.Registry.{unknown_name, names, register, register_all, get}

module _ {A : Type 0} (key : Text) where
  found_first :
      (items more : List (Text × A)) (a : Text × A)
      → find (λ item. item.0 == key) items ≡ some a
      → find (λ item. item.0 == key) (items ++ more) ≡ some a
  found_first [] more a h = cc
  found_first (item ∷ items) more a h = elim (Bool-cases (item.0 == key)) [
    | inl e ↦ rw e (rw e at h)
    | inr e ↦ rw e (found_first items more a (rw e at h))
  ]

  found_last :
      (items : List (Text × A)) (a : A)
      → any (λ item. item.0 == key) items ≡ false
      → find (λ item. item.0 == key) (items ++ (key, a) ∷ []) ≡ some (key, a)
  found_last [] a h = rw (beq_refl key)
  found_last (item ∷ items) a h = elim (Bool-cases (item.0 == key)) [
    | inl e ↦ ground (arith, e)
    | inr e ↦ rw e (found_last items a (rw e at h))
  ]

module _ {A : Type 0} (name : A → Text) where
  -- The object stands under its name.
  abbrev pub IsRegistered : List (Text × A) → A → Type 0
  IsRegistered items a = find (λ item. item.0 == strip (name a)) items ≡ some (strip (name a), a)

  register-IsRegistered :
      (a : A) (items added : List (Text × A))
      → register name a items ≡ ok added
      → IsRegistered added a × ((b : A) → IsRegistered items b → IsRegistered added b)
  unfolding register
  register-IsRegistered a items added h =
      let key = strip (name a) in
      let (nonblank, h1) = raise_if-eq-ok (is_nil key) _ _ h in
      let (new, h2) = raise_if-eq-ok (any (λ item. item.0 == key) items) _ _ h1 in
      let same : items ++ (key, a) ∷ [] ≡ added = cc in
      (
        subst (λ xs. IsRegistered xs a) same (found_last key items a new),
        λ b k. subst (λ xs. IsRegistered xs b) same (found_first (strip (name b)) items _ _ k),
      )

  register_all-IsRegistered :
      (objects : List A) (items added : List (Text × A))
      → register_all name objects items ≡ ok added
      → All (IsRegistered added) objects × ((b : A) → IsRegistered items b → IsRegistered added b)
  unfolding register_all
  register_all-IsRegistered [] items added h =
      (tt, λ b k. subst (λ xs. IsRegistered xs b) (let same : items ≡ added = cc in same) k)
  register_all-IsRegistered (a ∷ rest) items added h =
      let (mid, e, h1) = bind-eq-ok (register name a items) (register_all name rest) h in
      let (here, old) = register-IsRegistered a items mid e in
      let (later, kept) = register_all-IsRegistered rest mid added h1 in
      ((kept a here, later), λ b k. kept b (old b k))

  found :
      {a : A} (items : List (Text × A)) (key : Text)
      → find (λ item. item.0 == key) items ≡ some (key, a)
      → get key items ≡ ok a
  unfolding get
  found items key k =
      ap
        (λ (o : Option (Text × A)). elim o [
          | none ↦ err (unknown_name key (names items))
          | some item ↦ ok item.1
        ])
        k

  -- If a registry can be built from a list of objects, each of them is what is found under its
  -- name, without the space around it.
  pub get-register_all :
      (objects : List A) (added : List (Text × A))
      → register_all name objects [] ≡ ok added
      → All (λ a. get (strip (name a)) added ≡ ok a) objects
  unfolding get
  get-register_all objects added h =
      All-map objects (λ a k. found added (strip (name a)) k)
        (register_all-IsRegistered objects [] added h).0
