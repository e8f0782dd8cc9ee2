-- ===== src/Dict/Laws.antt =====
-- What reading a key gives after a write, a removal and a merge.
use oxdeai_core.Prelude.{
  String, Option, none, some, false, List, [], ◌∷◌, ◌≡◌, refl, ap, arith, ◌==◌, eq_iff,
  if◌then◌else◌, inl, inr, Option-cases,
}
use oxdeai_core.Dict.{
  Dict, get, put, remove, keys, has_key, write_key, merge_key, merge_keys, merge_into, assign,
}

-- What a key holds after the merge of an object over another one.
abbrev pub merged {ℓ} : {V : Type ℓ} → (V → V → V) → Option V → Option V → Option V
merged combine dst none = dst
merged combine none (some src) = some src
merged combine (some dst) (some src) = some (combine dst src)

module _ {ℓ} {V : Type ℓ} where
  pub get-put :
      (k j : String) (v : V) (d : Dict V) → get j (put k v d) ≡ (if k == j then some v else get j d)
  unfolding get put
  get-put k j v [] = refl
  get-put k j v ((i, w) ∷ d) = ground (arith, eq_iff k j, eq_iff i k, eq_iff i j, get-put k j v d)

  pub get-remove :
      (k j : String) (d : Dict V) → get j (remove k d) ≡ (if k == j then none else get j d)
  unfolding get remove
  get-remove k j [] = ground arith
  get-remove k j ((i, w) ∷ d) = ground (arith, eq_iff k j, eq_iff i k, eq_iff i j, get-remove k j d)

  pub put_same : (k : String) (v : V) (d : Dict V) → get k d ≡ some v → put k v d ≡ d
  unfolding get put
  put_same k v [] h = cc
  put_same k v ((j, w) ∷ d) h = ground (arith, put_same k v d)

  get-eq-none_of_has_key : (k : String) (d : Dict V) → has_key k (keys d) ≡ false → get k d ≡ none
  unfolding get keys has_key
  get-eq-none_of_has_key k [] h = refl
  get-eq-none_of_has_key k ((j, w) ∷ d) h = ground (arith, get-eq-none_of_has_key k d)

  get-write_key :
      (combine : V → V → V) (k j : String) (t : Dict V) (src : Option V)
      → get j (write_key combine k t src (get k t))
        ≡ (if k == j then merged combine (get k t) src else get j t)
  unfolding write_key
  get-write_key combine k j t none = ground (arith, eq_iff k j)
  get-write_key combine k j t (some w) = elim (Option-cases (get k t)) [
    | inl e ↦ rw e (get-put k j w t)
    | inr (v, e) ↦ rw e (get-put k j (combine v w) t)
  ]

  get-merge_key :
      (combine : V → V → V) (k j : String) (t s : Dict V)
      → get j (merge_key combine k t s)
        ≡ (if k == j then merged combine (get j t) (get j s) else get j t)
  unfolding merge_key
  get-merge_key combine k j t s = ground (arith, get-write_key combine k j t (get k s), eq_iff k j)

  module _ (combine : V → V → V) (idem : (v w : V) → combine (combine v w) w ≡ combine v w)
      (self : (w : V) → combine w w ≡ w) where
    merged_idem : (o p : Option V) → merged combine (merged combine o p) p ≡ merged combine o p
    merged_idem none none = refl
    merged_idem (some v) none = refl
    merged_idem none (some w) = ap some (self w)
    merged_idem (some v) (some w) = ap some (idem v w)

    get-merge_keys :
        (ks : List String) (j : String) (t s : Dict V)
        → get j (merge_keys combine ks t s)
          ≡ (if has_key j ks then merged combine (get j t) (get j s) else get j t)
    unfolding merge_keys has_key
    get-merge_keys [] j t s = refl
    get-merge_keys (k ∷ ks) j t s = ground (
      arith,
      get-merge_keys ks j (merge_key combine k t s) s,
      get-merge_key combine k j t s,
      merged_idem (get j t) (get j s),
    )

    -- A merge takes the source's keys and keeps the target's others.
    pub get-merge_into :
        (j : String) (t s : Dict V)
        → get j (merge_into combine t s) ≡ merged combine (get j t) (get j s)
    unfolding merge_into
    get-merge_into j t s = ground (arith, get-merge_keys (keys s) j t s, get-eq-none_of_has_key j s)

  pub get-merge_assign :
      (j : String) (t s : Dict V)
      → get j (merge_into assign t s) ≡ merged assign (get j t) (get j s)
  get-merge_assign = get-merge_into assign (λ v w. refl) (λ w. refl)

  write_key-assign_noop :
      (k : String) (t : Dict V) (src : Option V)
      → merged assign (get k t) src ≡ get k t
      → write_key assign k t src (get k t) ≡ t
  unfolding write_key
  write_key-assign_noop k t none h = ground arith
  write_key-assign_noop k t (some w) h = elim (Option-cases (get k t)) [
    | inl e ↦ ground arith
    | inr (v, e) ↦ ground (arith, put_same k w t)
  ]

  merge_keys-assign_noop :
      (ks : List String) (t s : Dict V)
      → ((j : String) → merged assign (get j t) (get j s) ≡ get j t)
      → merge_keys assign ks t s ≡ t
  unfolding merge_keys merge_key
  merge_keys-assign_noop [] t s same = refl
  merge_keys-assign_noop (k ∷ ks) t s same =
      rw (write_key-assign_noop k t (get k s) (same k)) (merge_keys-assign_noop ks t s same)

  -- Merging an object of plain values into itself, or once more, changes nothing.
  pub merge_assign_self : (w : Dict V) → merge_into assign w w ≡ w
  unfolding merge_into
  merge_assign_self w = merge_keys-assign_noop (keys w) w w (λ j. ground arith)

  pub merge_assign_idem :
      (v w : Dict V) → merge_into assign (merge_into assign v w) w ≡ merge_into assign v w
  merge_assign_idem v w =
      unfold merge_into in
      merge_keys-assign_noop (keys w) (merge_into assign v w) w
        (λ j. rw get-merge_assign (ground arith))
