-- ===== src/Codec/Restoring/RoundTrips.antt =====
-- Serialized parts of the state that are read back.
use oxdeai_core.Prelude.{
  ℕ, zero, suc, String, ◌≡◌, sym, ap, ◌∙◌, subst, Bool, Bool-cases, false, Option, some, [], ◌∷◌,
  ◌>>=◌, inl, inr, some_injective, bind-some,
}
use oxdeai_core.Dict.{Dict}
use oxdeai_core.Json.{Json, bool, num, obj, Fields, end, field}
use oxdeai_core.Json.Order.{str_ltb, str_ltb_asym}
use oxdeai_core.Json.Canonical.{Follows, IsOrdered, sort_fields-ordered}
use oxdeai_core.State.{State, KillSwitchState, RecursionState, VelocityState, VelocityCounter}
use oxdeai_core.Schemas.{value_of}
use oxdeai_core.Codec.Sorting.{
  insert_entry, sorted_entries, object_of, sorted_object, assert_pos, num_json,
}
use oxdeai_core.Codec.Policies.{normalize_velocity}
use oxdeai_core.Codec.Limits.{normalize_kill_switch, normalize_recursion}
use oxdeai_core.Codec.Reading.{read_fields, read_object, as_bool, assert_int}
use oxdeai_core.Codec.Restoring.{read_kill_switch, read_recursion, read_velocity, read_counter}

module _ {ℓ} {V : Type ℓ} where
  -- The first key is not after `k`.
  abbrev HeadFollows : String → Dict V → Type 0
  HeadFollows k [] = Unit
  HeadFollows k ((j, v) ∷ d) = str_ltb j k ≡ false

  abbrev IsSorted : Dict V → Type 0
  IsSorted [] = Unit
  IsSorted ((k, v) ∷ d) = HeadFollows k d × IsSorted d

  insert_entry-HeadFollows :
      (j k : String) (v : V) (d : Dict V)
      → str_ltb k j ≡ false
      → HeadFollows j d
      → HeadFollows j (insert_entry k v d)
  unfolding insert_entry
  insert_entry-HeadFollows j k v [] below f = below
  insert_entry-HeadFollows j k v ((i, w) ∷ d) below f = elim (Bool-cases (str_ltb i k)) [
    | inl e ↦ rw e f
    | inr e ↦ rw e below
  ]

  insert_entry-IsSorted :
      (k : String) (v : V) (d : Dict V) → IsSorted d → IsSorted (insert_entry k v d)
  unfolding insert_entry
  insert_entry-IsSorted k v [] h = (tt, tt)
  insert_entry-IsSorted k v ((j, w) ∷ d) (f, h) = elim (Bool-cases (str_ltb j k)) [
    | inl e ↦
        rw e
          ((insert_entry-HeadFollows j k v d (str_ltb_asym j k e) f, insert_entry-IsSorted k v d h))
    | inr e ↦ rw e ((e, (f, h)))
  ]

  sorted_entries-IsSorted : (d : Dict V) → IsSorted (sorted_entries d)
  unfolding sorted_entries
  sorted_entries-IsSorted [] = tt
  sorted_entries-IsSorted ((k, v) ∷ d) =
      insert_entry-IsSorted k v (sorted_entries d) (sorted_entries-IsSorted d)

  object_of-Follows :
      (write : V → Option Json) (j : String) (d : Dict V) (fs : Fields)
      → object_of write d ≡ some fs
      → HeadFollows j d
      → Follows j fs
  unfolding object_of
  object_of-Follows write j [] fs e f = subst (Follows j) (some_injective e) tt
  object_of-Follows write j ((k, v) ∷ d) fs e f =
      let (x, w, e1) = bind-some (write v) _ fs e in
      let (gs, r, e2) = bind-some (object_of write d) _ fs e1 in
      subst (Follows j) (some_injective e2) f

  -- An object's fields stand in the order of the entries that it is made of.
  object_of-IsOrdered :
      (write : V → Option Json) (d : Dict V) (fs : Fields)
      → object_of write d ≡ some fs
      → IsSorted d
      → IsOrdered fs
  unfolding object_of
  object_of-IsOrdered write [] fs e h = subst IsOrdered (some_injective e) tt
  object_of-IsOrdered write ((k, v) ∷ d) fs e (f, h) =
      let (x, w, e1) = bind-some (write v) _ fs e in
      let (gs, r, e2) = bind-some (object_of write d) _ fs e1 in
      subst IsOrdered (some_injective e2)
        ((object_of-Follows write k d gs r f, object_of-IsOrdered write d gs r h))

  module _ (write : V → Option Json) (read : Json → Option V)
      (reads : (v : V) (j : Json) → write v ≡ some j → read j ≡ some v) where
    read_fields-object :
        (d : Dict V) (fs : Fields) → object_of write d ≡ some fs → read_fields read fs ≡ some d
    unfolding object_of read_fields
    read_fields-object [] fs e = ap (read_fields read) (sym (some_injective e))
    read_fields-object ((k, v) ∷ d) fs e =
        let (j, w, e1) = bind-some (write v) _ fs e in
        let (gs, r, e2) = bind-some (object_of write d) _ fs e1 in
        ap (read_fields read) (sym (some_injective e2))
        ∙ ap (λ o. o >>= λ a. read_fields read gs >>= λ t. some ((k, a) ∷ t)) (reads v j w)
        ∙ ap (λ o. o >>= λ t. some ((k, v) ∷ t)) (read_fields-object d gs r)

    -- A serialized dictionary is read back with its keys sorted.
    read_sorted :
        (d : Dict V) (payload : Json)
        → sorted_object write d ≡ some payload
        → (fs : Fields) × (payload ≡ obj fs) × (read_object read fs ≡ some (sorted_entries d))
    unfolding sorted_object read_object
    read_sorted d payload e =
        let (fs, o, e1) = bind-some (object_of write (sorted_entries d)) _ payload e in
        (
          fs,
          sym (some_injective e1),
          ap (read_fields read) (
                sort_fields-ordered fs
                  (object_of-IsOrdered write (sorted_entries d) fs o (sorted_entries-IsSorted d)))
              ∙ read_fields-object (sorted_entries d) fs o,
        )

abbrev flag_json : Bool → Option Json
flag_json b = some (bool b)

restored_kill_switch :
    (ks : KillSwitchState) (payload : Json)
    → normalize_kill_switch ks ≡ some payload
    → read_kill_switch payload
      ≡ some (record { global = ks.global; agents = sorted_entries ks.agents })
unfolding normalize_kill_switch read_kill_switch value_of
restored_kill_switch ks payload h =
    let (agents, a, e) = bind-some (sorted_object flag_json ks.agents) _ payload h in
    let (fs, o, r) =
      read_sorted flag_json as_bool (λ v j w. ap as_bool (sym (some_injective w))) ks.agents agents
        a in
    ap read_kill_switch (
      sym (some_injective e)
      ∙ ap (λ x. obj (field "global" (bool ks.global) (field "agents" x end))) o)
    ∙ ap (λ x. x >>= λ d. some (record { global = ks.global; agents = d })) r

abbrev as_number : Json → Option ℕ
as_number v = assert_int v

restored_recursion :
    (rc : RecursionState) (payload : Json)
    → normalize_recursion rc ≡ some payload
    → read_recursion payload ≡ some (record { max_depth = sorted_entries rc.max_depth })
unfolding normalize_recursion read_recursion value_of
restored_recursion rc payload h =
    let (depths, a, e) = bind-some (sorted_object num_json rc.max_depth) _ payload h in
    let (fs, o, r) =
      read_sorted num_json as_number (λ v j w. ap as_number (sym (some_injective w))) rc.max_depth
        depths a in
    ap read_recursion (sym (some_injective e) ∙ ap (λ x. obj (field "max_depth" x end)) o)
    ∙ ap (λ x. x >>= λ d. some (record { max_depth = d })) r

abbrev counter_json : VelocityCounter → Option Json
counter_json c =
    some (obj (field "window_start" (num c.window_start) (field "count" (num c.count) end)))

read_counter-json :
    (v : VelocityCounter) (j : Json) → counter_json v ≡ some j → read_counter j ≡ some v
unfolding value_of
read_counter-json v j w = ap read_counter (sym (some_injective w))

assert_pos-same : (n m : ℕ) → assert_pos n ≡ some m → n ≡ m
assert_pos-same zero m e = absurd (cc e)
assert_pos-same (suc n) m e = some_injective e

velocity_payload : ℕ → ℕ → Json → Json
velocity_payload window actions counters = obj (
    field "config"
      (obj (field "window_seconds" (num window) (field "max_actions" (num actions) end)))
      (field "counters" counters end))

restored_velocity :
    (vel : VelocityState) (payload : Json)
    → normalize_velocity vel ≡ some payload
    → read_velocity payload
      ≡ some (record { config = vel.config; counters = sorted_entries vel.counters })
unfolding normalize_velocity read_velocity value_of velocity_payload
restored_velocity vel payload h =
    let (window, p, h1) = bind-some (assert_pos vel.config.window_seconds) _ payload h in
    let (counters, a, e) = bind-some (sorted_object counter_json vel.counters) _ payload h1 in
    let (fs, o, r) =
      read_sorted counter_json read_counter read_counter-json vel.counters counters a in
    let same = assert_pos-same vel.config.window_seconds window p in
    ap read_velocity (
      sym (some_injective e)
      ∙ ap (velocity_payload window vel.config.max_actions) o
      ∙ ap (λ n. velocity_payload n vel.config.max_actions (obj fs)) (sym same))
    ∙ ap
        (λ x. x >>= λ d. assert_pos vel.config.window_seconds >>= λ n. some (record {
          config = record { window_seconds = n; max_actions = vel.config.max_actions };
          counters = d;
        }))
        r
    ∙ ap
        (λ x. x >>= λ n. some (record {
          config = record { window_seconds = n; max_actions = vel.config.max_actions };
          counters = sorted_entries vel.counters;
        }))
        (p ∙ ap some (sym same))

-- What the codecs of the kill switch, the recursion limits and the rate counters have serialized of a
-- state, they read back as it was, with the agents in the order of their ids.
pub restored_parts :
    (state : State) (switch depths rates : Json)
    → normalize_kill_switch state.kill_switch ≡ some switch
    → normalize_recursion state.recursion ≡ some depths
    → normalize_velocity state.velocity ≡ some rates
    → (read_kill_switch switch
        ≡ some (record {
          global = state.kill_switch.global;
          agents = sorted_entries state.kill_switch.agents;
        }))
      × (read_recursion depths
          ≡ some (record { max_depth = sorted_entries state.recursion.max_depth }))
      × (read_velocity rates
          ≡ some (record {
            config = state.velocity.config;
            counters = sorted_entries state.velocity.counters;
          }))
restored_parts state switch depths rates k r v = (
  restored_kill_switch state.kill_switch switch k,
  restored_recursion state.recursion depths r,
  restored_velocity state.velocity rates v,
)
