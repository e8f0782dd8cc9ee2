-- ===== src/Merge/Laws.antt =====
-- What the merge of a module's change gives at the keys that the policy reads.
use oxdeai_core.Prelude.{
  String, Option, none, some, [], ◌≡◌, refl, ap, ◌∙◌, false, arith, ◌==◌, eq_iff, eq_refl, get_or,
  Option-cases, inl, inr, if◌then◌else◌,
}
use oxdeai_core.Dict.{Dict, get, put, merge_into, assign}
use oxdeai_core.Dict.Laws.{
  merged, get-put, get-merge_into, get-merge_assign, merge_assign_self, merge_assign_idem,
}
use oxdeai_core.State.{VelocityCounter, ActiveAuth}
use oxdeai_core.Merge.{merge_counter, merge_auth, merge_by_tool}

module _ {ℓ} {V : Type ℓ} where
  -- A spread with one key set, merged into the object that it was spread from: that key is set.
  pub get-merge_put :
      (k j : String) (v : V) (d : Dict V)
      → get j (merge_into assign d (put k v d)) ≡ (if k == j then some v else get j d)
  get-merge_put k j v d =
      rw (get-merge_assign j d (put k v d)) (ground (arith, get-put k j v d, eq_iff k j))

  pub get-merge_self : (j : String) (d : Dict V) → get j (merge_into assign d d) ≡ get j d
  get-merge_self j d = rw (get-merge_assign j d d) (ground arith)

pub get-merge_counter :
    (k j : String) (v : VelocityCounter) (d : Dict VelocityCounter)
    → get j (merge_into merge_counter d (put k v d)) ≡ (if k == j then some v else get j d)
get-merge_counter k j v d =
    rw (get-merge_into merge_counter (λ v w. refl) (λ w. refl) j d (put k v d))
      (ground (arith, get-put k j v d, eq_iff k j))

merged-none {ℓ} : {V : Type ℓ} (f : V → V → V) (o : Option V) → o ≡ merged f none o
merged-none f none = refl
merged-none f (some v) = refl

pub merged_self {ℓ} :
    {V : Type ℓ} (f : V → V → V) (self : (v : V) → f v v ≡ v) (o : Option V) → merged f o o ≡ o
merged_self f self none = refl
merged_self f self (some v) = ap some (self v)

-- The authorizations that an agent holds after a merge, at each id: the merged ones, else those
-- that it held before. A merge takes none away.
pub get-merge_auths :
    (agent id : String) (new : Dict ActiveAuth) (auths : Dict (Dict ActiveAuth))
    → get id
        (get_or (get agent (merge_into (merge_into merge_auth) auths (put agent new auths))) [])
      ≡ merged assign (get id (get_or (get agent auths) [])) (get id new)
get-merge_auths agent id new auths =
    rw
      (
        get-merge_into (merge_into merge_auth) merge_assign_idem merge_assign_self agent auths
            (put agent new auths),
        get-put agent agent new auths,
        eq_refl agent,
      )
      (elim (Option-cases (get agent auths)) [
        | inl e ↦ rw e (unfold get in merged-none assign (get id new))
        | inr (held, e) ↦ rw e (get-merge_assign id held new)
      ])

pub get-merge_auths_other :
    (agent j : String) (new : Dict ActiveAuth) (auths : Dict (Dict ActiveAuth))
    → (agent == j) ≡ false
    → get j (merge_into (merge_into merge_auth) auths (put agent new auths)) ≡ get j auths
get-merge_auths_other agent j new auths h =
    rw
      (
        get-merge_into (merge_into merge_auth) merge_assign_idem merge_assign_self j auths
            (put agent new auths),
        get-put agent j new auths,
        h,
      )
      (merged_self (merge_into merge_auth) merge_assign_self (get j auths))

-- Authorizations that are merged into themselves stay.
pub get-merge_auths_self :
    (j : String) (auths : Dict (Dict ActiveAuth))
    → get j (merge_into (merge_into merge_auth) auths auths) ≡ get j auths
get-merge_auths_self j auths =
    get-merge_into (merge_into merge_auth) merge_assign_idem merge_assign_self j auths auths
    ∙ merged_self (merge_into merge_auth) merge_assign_self (get j auths)

-- So do the caps of tools.
pub get-merge_by_tool_self {ℓ} :
    {V : Type ℓ} (j : String) (caps : Option (Dict (Dict V)))
    → get j (get_or (merge_by_tool caps caps) []) ≡ get j (get_or caps [])
get-merge_by_tool_self j none = refl
get-merge_by_tool_self j (some caps) =
    get-merge_into (merge_into assign) merge_assign_idem merge_assign_self j caps caps
    ∙ merged_self (merge_into assign) merge_assign_self (get j caps)
