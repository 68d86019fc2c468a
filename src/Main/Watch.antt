-- ===== src/Main/Watch.antt =====
-- cmd/server/main.go: the loop of `watchConfig`, which reloads 200 ms after the last event of a
-- burst. Times are milliseconds; a timer that is due is taken to fire before an event at its time.
pub mod Files
use smolllm_server.Base.{
  ℕ, ◌+◌, ◌<◌, ◌≤◌, ◌≡◌, refl, Bool, true, false, Option, none, some, List, [], ◌∷◌, arith, any,
  leb, eqb, if◌then◌else◌, Text, codes, ◌==◌, text_eq, split, reverse, All, All-map, subst, sym,
  Bool-cases, inl, inr, ◌⊎◌,
}

-- a file event
pub record Event : Type 0 where
  pub time : ℕ
  pub name : Text

strip_slashes : Text → Text
strip_slashes [] = []
strip_slashes (c ∷ s) = let rest = strip_slashes s in if eqb c b'/' then rest else c ∷ s

last_part : List Text → Text
last_part [] = []
last_part (p ∷ []) = p
last_part (p ∷ q ∷ ps) = last_part (q ∷ ps)

-- `filepath.Base`
unfoldable pub base_name : Text → Text
unfolding strip_slashes last_part
base_name p =
    let stripped = reverse (strip_slashes (reverse p)) in
    if p == []
    then codes "."
    else if stripped == []
    then codes "/"
    else last_part (split b'/' stripped)

abbrev pub debounce : ℕ
debounce = 200

abbrev due : Option ℕ → ℕ → Bool
due none t = false
due (some d) t = leb d t

abbrev fired : Option ℕ → List ℕ
fired none = []
fired (some d) = d ∷ []

abbrev pub is_config : Text → Event → Bool
is_config base e = base_name e.name == base

-- The timer after an event: `debounce.Stop()` and `time.AfterFunc`, or as it was.
abbrev rearm : Text → Event → Option ℕ → Option ℕ
rearm base e pending = if is_config base e then some (e.time + debounce) else pending

-- the times of the reloads, from the timer's deadline and the events to come
unfoldable pub watch : Text → Option ℕ → List Event → List ℕ
watch base pending [] = fired pending
watch base none (e ∷ es) = watch base (rearm base e none) es
watch base (some d) (e ∷ es) =
    let late = d ∷ watch base (rearm base e none) es in
    let early = watch base (rearm base e (some d)) es in if leb d e.time then late else early

abbrev pub reloads : Text → List Event → List ℕ
reloads base es = watch base none es

-- the events come in the order of time, none before `t`
abbrev pub Ordered : ℕ → List Event → Type 0
Ordered t [] = Unit
Ordered t (e ∷ es) = (t ≤ e.time) × Ordered e.time es

-- a reload at `t` or later
abbrev pub reloads_from : ℕ → List ℕ → Bool
reloads_from t rs = any (λ r. leb t r) rs

reloads_from_mono :
    (s t : ℕ) (rs : List ℕ) → s ≤ t → reloads_from t rs ≡ true → reloads_from s rs ≡ true
reloads_from_mono s t [] h k = k
reloads_from_mono s t (r ∷ rs) h k = ground (arith, reloads_from_mono s t rs h)

-- A pending timer leads to a reload at its deadline or later.
watch-pending :
    (base : Text) (d t : ℕ) (es : List Event)
    → Ordered t es
    → d ≤ t + debounce
    → reloads_from d (watch base (some d) es) ≡ true
unfolding watch
watch-pending base d t [] o h = ground arith
watch-pending base d t (e ∷ es) (le, o) h = ground (
  arith,
  watch-pending base d e.time es o,
  watch-pending base (e.time + debounce) e.time es o,
  reloads_from_mono d (e.time + debounce) (watch base (some (e.time + debounce)) es),
)

-- An event on the configuration file is followed by a reload 200 ms later or still later.
abbrev pub Served : Text → List ℕ → Event → Type 0
Served base rs e = (is_config base e ≡ false) ⊎ (reloads_from (e.time + debounce) rs ≡ true)

Served-cons :
    (base : Text) (d : ℕ) (rs : List ℕ) (es : List Event)
    → All (Served base rs) es
    → All (Served base (d ∷ rs)) es
Served-cons base d rs = All-map (λ e s. ground (arith, s))

rearmed :
    (base : Text) (e : Event) (pending : Option ℕ) (es : List Event)
    → Ordered e.time es
    → Served base (watch base (rearm base e pending) es) e
rearmed base e pending es o = elim (Bool-cases (is_config base e)) [
  | inl ours ↦ inr (rw ours (watch-pending base (e.time + debounce) e.time es o (omega arith)))
  | inr other ↦ inl other
]

module _ (base : Text) (d : ℕ) (e : Event) (es : List Event) where
  watch_late :
      leb d e.time ≡ true → watch base (some d) (e ∷ es) ≡ d ∷ watch base (rearm base e none) es
  unfolding watch
  watch_late h = rw h

  watch_early :
      leb d e.time ≡ false → watch base (some d) (e ∷ es) ≡ watch base (rearm base e (some d)) es
  unfolding watch
  watch_early h = rw h

watch-Served :
    (base : Text) (pending : Option ℕ) (t : ℕ) (es : List Event)
    → Ordered t es
    → All (Served base (watch base pending es)) es
unfolding watch
watch-Served base pending t [] o = tt
watch-Served base none t (e ∷ es) (le, o) =
    (rearmed base e none es o, watch-Served base (rearm base e none) e.time es o)
watch-Served base (some d) t (e ∷ es) (le, o) = elim (Bool-cases (leb d e.time)) [
  | inl late ↦
      let rs = watch base (rearm base e none) es in
      let served : All (Served base rs) (e ∷ es) =
        (rearmed base e none es o, watch-Served base (rearm base e none) e.time es o) in
      subst (λ out. All (Served base out) (e ∷ es)) (sym (watch_late base d e es late))
        (Served-cons base d rs (e ∷ es) served)
  | inr early ↦
      subst (λ out. All (Served base out) (e ∷ es)) (sym (watch_early base d e es early))
        (rearmed base e (some d) es o, watch-Served base (rearm base e (some d)) e.time es o)
]

-- No change of the configuration file is lost: with the events in the order of time, each event on
-- the file is followed by a reload at least 200 ms after it.
pub reloads-Served :
    (base : Text) (t : ℕ) (es : List Event) → Ordered t es → All (Served base (reloads base es)) es
reloads-Served base t es o = watch-Served base none t es o

-- The events are on the configuration file, each less than 200 ms after the one before.
abbrev pub Burst : Text → ℕ → List Event → Type 0
Burst base t [] = Unit
Burst base t (e ∷ es) =
    (t ≤ e.time) × (e.time < t + debounce) × (is_config base e ≡ true) × Burst base e.time es

abbrev pub last_time : ℕ → List Event → ℕ
last_time t [] = t
last_time t (e ∷ es) = last_time e.time es

watch-Burst :
    (base : Text) (t : ℕ) (es : List Event)
    → Burst base t es
    → watch base (some (t + debounce)) es ≡ (last_time t es + debounce) ∷ []
unfolding watch
watch-Burst base t [] b = refl
watch-Burst base t (e ∷ es) b = ground (arith, watch-Burst base e.time es)

-- A burst of events on the configuration file causes exactly one reload, 200 ms after the last.
pub reloads-Burst :
    (base : Text) (e : Event) (es : List Event)
    → is_config base e ≡ true
    → Burst base e.time es
    → reloads base (e ∷ es) ≡ (last_time e.time es + debounce) ∷ []
unfolding watch
reloads-Burst base e es h b = rw h (watch-Burst base e.time es b)
