-- ===== src/Messages/Calls.antt =====
-- internal/llm/adapter.go: the keys of tool calls, in `restoreToolCallExtras` and
-- `stripToolCallIndexes`.
use smolllm_server.Base.{
  ℕ, zero, suc, ◌+◌, ◌<◌, ◌≡◌, refl, ap, sym, ◌∙◌, Bool, true, false, not, ◌&&◌, Option, none, some,
  List, [], ◌∷◌, length, get_elem?, arith, if◌then◌else◌, eqb, text_eq, Text, Dict, ok, retain,
  codes, ◌||◌, ◌==◌,
}
use smolllm_server.Json.{Json}
use smolllm_server.Messages.{MessageApi, call_extra, is_empty, decode_envelope}
use smolllm_server.Messages.Restore.{set_calls, on_calls, restore_calls, calls_of}

-- the members of a raw call besides those that every tool call has
unfoldable pub other_members : Dict Text Json → Dict Text Json
other_members [] = []
other_members ((k, v) ∷ ms) =
    let rest = other_members ms in
    if k == codes "id" || k == codes "type" || k == codes "function" || k == codes "index"
    then rest
    else (k, v) ∷ rest

call_extra-other_members :
    (raw_call : Dict Text Json) → call_extra raw_call ≡ other_members raw_call
unfolding call_extra other_members retain
call_extra-other_members [] = refl
call_extra-other_members ((k, v) ∷ ms) = ground (arith, call_extra-other_members ms)

-- the extra fields of the call at a position, from what the position holds in the message and in
-- the raw one, and the extra fields so far
abbrev pub extra_after : Option Bool → Option (Dict Text Json) → Dict Text Json → Dict Text Json
extra_after (some true) (some raw_call) old =
    if is_empty (other_members raw_call) then old else other_members raw_call
extra_after _ _ old = old

-- `SetExtraFields` of a call replaces the extra fields of that call and no others.
abbrev pub IsCallSetter : (api : MessageApi) → (ℕ → api.Message → Dict Text Json) → Type 0
IsCallSetter api extra_at =
    (i j : ℕ) (x : Dict Text Json) (m : api.Message)
    → extra_at j (api.set_call_extra_fields i x m) ≡ (if eqb i j then x else extra_at j m)

module _ (api : MessageApi) (extra_at : ℕ → api.Message → Dict Text Json)
    (replaces : IsCallSetter api extra_at) where
  extra_at-past :
      (i j : ℕ) (fs : List Bool) (calls : List (Dict Text Json)) (m : api.Message)
      → j < i
      → extra_at j (set_calls api i fs calls m) ≡ extra_at j m
  unfolding set_calls
  extra_at-past i j [] calls m before = refl
  extra_at-past i j (f ∷ fs) [] m before = refl
  extra_at-past i j (f ∷ fs) (c ∷ calls) m before =
      extra_at-past (suc i) j fs calls _ (omega arith)
      ∙ ground (arith, replaces i j (call_extra c) m)

  extra_after-none : (o : Option Bool) (x : Dict Text Json) → extra_after o none x ≡ x
  extra_after-none none x = refl
  extra_after-none (some true) x = refl
  extra_after-none (some false) x = refl

  -- one round of the loop, seen at any position
  extra_at-step :
      (i n : ℕ) (f : Bool) (raw_call : Dict Text Json) (m : api.Message)
      → extra_at n (
          if f && not (is_empty (call_extra raw_call))
          then api.set_call_extra_fields i (call_extra raw_call) m
          else m)
        ≡ (if eqb i n then extra_after (some f) (some raw_call) (extra_at n m) else extra_at n m)
  extra_at-step i n false raw_call m = ground arith
  extra_at-step i n true raw_call m =
      rw (call_extra-other_members raw_call)
        (ground (arith, replaces i n (other_members raw_call) m))

  extra_at-set_calls :
      (i d n : ℕ) (fs : List Bool) (calls : List (Dict Text Json)) (m : api.Message)
      → n ≡ i + d
      → extra_at n (set_calls api i fs calls m)
        ≡ extra_after (get_elem? fs d) (get_elem? calls d) (extra_at n m)
  unfolding set_calls
  extra_at-set_calls i d n [] calls m here = refl
  extra_at-set_calls i d n (f ∷ fs) [] m here =
      sym (extra_after-none (get_elem? (f ∷ fs) d) (extra_at n m))
  extra_at-set_calls i zero n (f ∷ fs) (c ∷ calls) m here =
      let same : eqb i n ≡ true = ground (arith, here) in
      extra_at-past (suc i) n fs calls _ (omega (arith, here))
      ∙ extra_at-step i n f c m
      ∙ rw same refl
  extra_at-set_calls i (suc d) n (f ∷ fs) (c ∷ calls) m here =
      let other : eqb i n ≡ false = ground (arith, here) in
      extra_at-set_calls (suc i) d n fs calls _ (omega (arith, here))
      ∙ ap (extra_after (get_elem? fs d) (get_elem? calls d))
          (extra_at-step i n f c m ∙ rw other refl)

  extra_at-on_calls :
      (i : ℕ) (fs : List Bool) (raw : Json) (m : api.Message) {calls : List (Dict Text Json)}
      → decode_envelope raw ≡ some calls
      → length calls ≡ length fs
      → (m' : api.Message) × (on_calls api i fs raw m ≡ ok m')
        × ((j : ℕ)
            → extra_at j m' ≡ extra_after (get_elem? fs j) (get_elem? calls j) (extra_at j m))
  extra_at-on_calls i [] raw m e aligned = (m, refl, λ j. refl)
  extra_at-on_calls i (f ∷ fs) raw m {calls} e aligned = (
    set_calls api 0 (f ∷ fs) calls m,
    rw e (ground (arith, aligned)),
    λ j. extra_at-set_calls 0 j j (f ∷ fs) calls m (omega arith),
  )

  -- For a message whose raw `tool_calls` are a list of objects, as many as the message has calls,
  -- `restoreToolCallExtras` succeeds on it, and afterwards the extra fields of each function call
  -- are the keys of the raw call in its place besides `id`, `type`, `function` and `index`, where
  -- there are any; all other calls keep the extra fields they had.
  pub restore_calls-extra_at :
      (i : ℕ) (raw : Json) (m : api.Message) {calls : List (Dict Text Json)}
      → decode_envelope raw ≡ some calls
      → length calls ≡ length (calls_of api m)
      → (m' : api.Message) × (restore_calls api i raw m ≡ ok m')
        × ((j : ℕ)
            → extra_at j m'
              ≡ extra_after (get_elem? (calls_of api m) j) (get_elem? calls j) (extra_at j m))
  unfolding restore_calls
  restore_calls-extra_at i raw m e aligned = extra_at-on_calls i (calls_of api m) raw m e aligned
