-- ===== src/Api/Admin/Hooks/Events.antt =====
-- The names of events that an endpoint subscribes to (crates/openpay-api/src/admin.rs).
use Prim.Native.Char.{Char, code}
use Prim.Native.String.{compare, then as after}
use Prim.Native.String.compare as comparing
use Prim.Native.Nat.{Ordering, compare as compare_ℕ}
use vega_trix.Base.{
  ◌≡◌, ◌≢◌, refl, ap, ◌∙◌, String, Bool, true, false, ◌||◌, some, List, [], ◌∷◌, arith, any, str_eq,
  eq_iff, Bool-cases, inl, inr,
}
use vega_trix.Base.Sort.{sort_by, IsSortedBy, sort_by-IsSortedBy, any-sort_by}
use vega_trix.Api.Admin.Hooks.{
  default_events, text_le, dedup_after, dedup, trimmed, or_default_events, normalize_event_types,
}

compare-cons :
    (c d : Char) (s t : String)
    → compare (String.◌∷◌ c s) (String.◌∷◌ d t) ≡ after (compare_ℕ (code c) (code d)) (compare s t)
compare-cons c d s t = λ i. comparing.cons-cons c d s t i

compare-nil : (d : Char) (t : String) → compare String.[] (String.◌∷◌ d t) ≡ Ordering.lt
compare-nil d t = λ i. comparing.nil-cons d t i

text_le_total : (s t : String) → text_le s t ≡ false → text_le t s ≡ true
text_le_total String.[] String.[] h = refl
text_le_total String.[] (String.◌∷◌ d t) h = ground (arith, compare-nil d t)
text_le_total (String.◌∷◌ c s) String.[] h = ground (arith, compare-nil c s)
text_le_total (String.◌∷◌ c s) (String.◌∷◌ d t) h =
    ground (arith, text_le_total s t, compare-cons c d s t, compare-cons d c t s)

-- Every name stands after the one before it and differs from it.
abbrev pub IsStrict : List String → Type 0
IsStrict [] = Unit
IsStrict (s ∷ []) = Unit
IsStrict (s ∷ t ∷ ts) = ((text_le s t ≡ true) × (str_eq t s ≡ false)) × IsStrict (t ∷ ts)

IsSortedBy-skip :
    (s t : String) (ts : List String)
    → str_eq t s ≡ true
    → IsSortedBy text_le (s ∷ t ∷ ts)
    → IsSortedBy text_le (s ∷ ts)
IsSortedBy-skip s t [] same h = tt
IsSortedBy-skip s t (u ∷ ts) same h = (rw (← (eq_iff t s).0 same) h.1.0, h.1.1)

dedup_after-IsStrict :
    (s : String) (ts : List String) → IsSortedBy text_le (s ∷ ts) → IsStrict (s ∷ dedup_after s ts)
unfolding dedup_after
dedup_after-IsStrict s [] h = tt
dedup_after-IsStrict s (t ∷ ts) h = elim (Bool-cases (str_eq t s)) [
  | inl same ↦ rw same (dedup_after-IsStrict s ts (IsSortedBy-skip s t ts same h))
  | inr new ↦ rw new ((h.0, new), dedup_after-IsStrict t ts h.1)
]

or_again : (a b : Bool) → (a || b) ≡ (a || (a || b))
or_again a b = ground arith

any-dedup_after :
    (p : String → Bool) (s : String) (ts : List String)
    → (p s || any p (dedup_after s ts)) ≡ (p s || any p ts)
unfolding dedup_after
any-dedup_after p s [] = refl
any-dedup_after p s (t ∷ ts) = elim (Bool-cases (str_eq t s)) [
  | inl same ↦
      rw same (any-dedup_after p s ts ∙ rw (← (eq_iff t s).0 same) (or_again (p t) (any p ts)))
  | inr new ↦ rw new (ap (λ b. p s || b) (any-dedup_after p t ts))
]

any-dedup : (p : String → Bool) (ss : List String) → any p (dedup ss) ≡ any p ss
unfolding dedup
any-dedup p [] = refl
any-dedup p (s ∷ ss) = any-dedup_after p s ss

dedup-IsStrict : (ss : List String) → IsSortedBy text_le ss → IsStrict (dedup ss)
unfolding dedup
dedup-IsStrict [] h = tt
dedup-IsStrict (s ∷ ss) h = dedup_after-IsStrict s ss h

-- A list with a member is not replaced by the defaults.
or_default_events-kept : (ss : List String) → any (λ s. true) ss ≡ true → or_default_events ss ≡ ss
or_default_events-kept [] h = cc
or_default_events-kept (s ∷ ss) h = refl

any_member : (ss : List String) → ss ≢ [] → any (λ s. true) ss ≡ true
any_member [] h = absurd (h refl)
any_member (s ∷ ss) h = refl

-- The names that are stored for an endpoint: the given ones, trimmed, without empty ones, in order and
-- each once; if none is left, the default list. So the stored list is never empty, which would mean
-- every event.
pub normalize_event_types_lem :
    (raw : List String)
    → ((trimmed raw ≡ []) → normalize_event_types (some raw) ≡ default_events)
      × ((trimmed raw ≢ [])
          → IsStrict (normalize_event_types (some raw))
            × ((p : String → Bool)
                → any p (normalize_event_types (some raw)) ≡ any p (trimmed raw)))
unfolding normalize_event_types sort_by
normalize_event_types_lem raw = (
  λ none_left. rw none_left refl,
  λ some_left.
      let sorted = sort_by text_le (trimmed raw) in
      let members =
        λ (p : String → Bool). any-dedup p sorted ∙ any-sort_by text_le p (trimmed raw) in
      let kept : or_default_events (dedup sorted) ≡ dedup sorted =
        or_default_events-kept (dedup sorted)
          (members (λ s. true) ∙ any_member (trimmed raw) some_left) in
      (
        rw kept (dedup-IsStrict sorted (sort_by-IsSortedBy text_le text_le_total (trimmed raw))),
        λ p. rw kept (members p),
      ),
)
