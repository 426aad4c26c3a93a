-- ===== src/SetupProgress/Bounds.antt =====
-- web/src/components/setup/SetupProgress.tsx: what the estimate is, and that it grows with the log.
use sentry_usb.Base.{
  ℕ, ◌≤◌, ◌≡◌, ◌⊎◌, refl, Bool, true, false, ◌&&◌, ◌||◌, List, [], ◌∷◌, String, arith, ◌==◌,
  if◌then◌else◌, any, All, max, inl, inr,
}
use sentry_usb.Base.Text.{includes, is_empty, has_prefix, concat}
use sentry_usb.SetupProgress.Estimate.{
  Pattern, one_of, in_order, any_case, stage_markers, has_prefix_any_case, includes_any_case,
  on_line, behind, then_on_line, both_on_line, matches, highest_marker, estimate_progress,
}
use Prim.Native.String.{[], ◌∷◌}

has_prefix-append : (n s t : String) → has_prefix n s ≡ true → has_prefix n (concat s t) ≡ true
unfolding has_prefix concat
has_prefix-append [] s t h = refl
has_prefix-append (c ∷ n) [] t h = ground (arith, h)
has_prefix-append (c ∷ n) (d ∷ s) t h = ground (arith, h, has_prefix-append n s t)

includes_empty : (n s : String) → is_empty n ≡ true → includes n s ≡ true
unfolding includes has_prefix
includes_empty [] [] h = refl
includes_empty [] (d ∷ s) h = refl
includes_empty (c ∷ n) s h = ground (arith, h)

includes-append : (n s t : String) → includes n s ≡ true → includes n (concat s t) ≡ true
unfolding includes concat
includes-append n [] t h = includes_empty n t h
includes-append n (d ∷ s) t h =
    ground (arith, h, has_prefix-append n (d ∷ s) t, includes-append n s t)

has_prefix_any_case-append :
    (n s t : String) → has_prefix_any_case n s ≡ true → has_prefix_any_case n (concat s t) ≡ true
unfolding has_prefix_any_case concat
has_prefix_any_case-append [] s t h = refl
has_prefix_any_case-append (c ∷ n) [] t h = ground (arith, h)
has_prefix_any_case-append (c ∷ n) (d ∷ s) t h = ground (arith, h, has_prefix_any_case-append n s t)

any_case_empty : (n s : String) → is_empty n ≡ true → includes_any_case n s ≡ true
unfolding includes_any_case has_prefix_any_case
any_case_empty [] [] h = refl
any_case_empty [] (d ∷ s) h = refl
any_case_empty (c ∷ n) s h = ground (arith, h)

includes_any_case-append :
    (n s t : String) → includes_any_case n s ≡ true → includes_any_case n (concat s t) ≡ true
unfolding includes_any_case concat
includes_any_case-append n [] t h = any_case_empty n t h
includes_any_case-append n (d ∷ s) t h =
    ground (arith, h, has_prefix_any_case-append n (d ∷ s) t, includes_any_case-append n s t)

on_line_empty : (n s : String) → is_empty n ≡ true → on_line n s ≡ true
unfolding on_line has_prefix
on_line_empty [] [] h = refl
on_line_empty [] (d ∷ s) h = refl
on_line_empty (c ∷ n) s h = ground (arith, h)

on_line-append : (n s t : String) → on_line n s ≡ true → on_line n (concat s t) ≡ true
unfolding on_line concat
on_line-append n [] t h = on_line_empty n t h
on_line-append n (d ∷ s) t h =
    ground (arith, h, has_prefix-append n (d ∷ s) t, on_line-append n s t)

then_on_line-append :
    (first second s t : String)
    → then_on_line second (behind first s) ≡ true
    → then_on_line second (behind first (concat s t)) ≡ true
unfolding concat on_line
then_on_line-append [] second s t h = on_line-append second s t h
then_on_line-append (c ∷ first) second [] t h = ground (arith, h)
then_on_line-append (c ∷ first) second (d ∷ s) t h =
    ground (arith, h, then_on_line-append first second s t)

both_on_line-append :
    (first second s t : String)
    → both_on_line first second s ≡ true
    → both_on_line first second (concat s t) ≡ true
unfolding both_on_line concat
both_on_line-append first second [] [] h = h
both_on_line-append first second [] (d ∷ t) h =
    ground (arith, then_on_line-append first second [] (d ∷ t) h)
both_on_line-append first second (d ∷ s) t h =
    ground
      (arith, h, then_on_line-append first second (d ∷ s) t, both_on_line-append first second s t)

any_in_more :
    (p q : String → Bool) (ns : List String)
    → ((n : String) → p n ≡ true → q n ≡ true)
    → any p ns ≡ true
    → any q ns ≡ true
any_in_more p q [] h k = k
any_in_more p q (n ∷ ns) h k = ground (arith, h n, k, any_in_more p q ns h)

matches-append : (p : Pattern) (s t : String) → matches p s ≡ true → matches p (concat s t) ≡ true
unfolding matches
matches-append (one_of ns) s t h =
    any_in_more (λ n. includes n s) (λ n. includes n (concat s t)) ns (λ n. includes-append n s t) h
matches-append (in_order first second) s t h = both_on_line-append first second s t h
matches-append (any_case ns) s t h =
    any_in_more (λ n. includes_any_case n s) (λ n. includes_any_case n (concat s t)) ns
      (λ n. includes_any_case-append n s t) h

highest_marker-append :
    (ms : List (Pattern × ℕ)) (h k : ℕ) (s t : String)
    → h ≤ k
    → highest_marker ms h s ≤ highest_marker ms k (concat s t)
unfolding highest_marker
highest_marker-append [] h k s t le = le
highest_marker-append ((p, pct) ∷ ms) h k s t le =
    highest_marker-append ms (if matches p s then max h pct else h)
      (if matches p (concat s t) then max k pct else k) s t
      (ground (arith, le, matches-append p s t))

highest_marker-le : (ms : List (Pattern × ℕ)) (h : ℕ) (s : String) → h ≤ highest_marker ms h s
unfolding highest_marker
highest_marker-le [] h s = omega arith
highest_marker-le ((p, pct) ∷ ms) h s =
    ground (arith, highest_marker-le ms (if matches p s then max h pct else h) s)

-- the value of a marker that the log has is no more than the bound
abbrev pub IsBelow : String → ℕ → Pattern × ℕ → Type 0
IsBelow s bound m = matches m.0 s ≡ true → m.1 ≤ bound

highest_marker-IsBelow :
    (ms : List (Pattern × ℕ)) (h : ℕ) (s : String) → All (IsBelow s (highest_marker ms h s)) ms
unfolding highest_marker
highest_marker-IsBelow [] h s = tt
highest_marker-IsBelow ((p, pct) ∷ ms) h s = (
  λ e. ground (arith, e, highest_marker-le ms (if matches p s then max h pct else h) s),
  highest_marker-IsBelow ms (if matches p s then max h pct else h) s,
)

-- some marker that the log has is worth so much
abbrev pub is_worth : String → List (Pattern × ℕ) → ℕ → Bool
is_worth s [] value = false
is_worth s ((p, pct) ∷ ms) value = (matches p s && pct == value) || is_worth s ms value

highest_marker-is_worth :
    (ms : List (Pattern × ℕ)) (h : ℕ) (s : String)
    → (highest_marker ms h s ≡ h) ⊎ (is_worth s ms (highest_marker ms h s) ≡ true)
unfolding highest_marker
highest_marker-is_worth [] h s = inl refl
highest_marker-is_worth ((p, pct) ∷ ms) h s =
    ground (arith, highest_marker-is_worth ms (if matches p s then max h pct else h) s)

is_worth-le :
    (ms : List (Pattern × ℕ)) (s : String) (value bound : ℕ)
    → All (λ m. m.1 ≤ bound) ms
    → is_worth s ms value ≡ true
    → value ≤ bound
is_worth-le [] s value bound h e = ground (arith, e)
is_worth-le ((p, pct) ∷ ms) s value bound (le, h) e =
    ground (arith, e, le, is_worth-le ms s value bound h)

-- The estimate is the highest value of the stage markers that the log has, or 0 if it has none;
-- it is at most 100, and it never falls when the log grows at its end.
pub estimate_progress-max :
    (s : String)
    → All (IsBelow s (estimate_progress s)) stage_markers
      × ((estimate_progress s ≡ 0) ⊎ (is_worth s stage_markers (estimate_progress s) ≡ true))
      × (estimate_progress s ≤ 100)
      × ((t : String) → estimate_progress s ≤ estimate_progress (concat s t))
unfolding estimate_progress
estimate_progress-max s =
    let worth = highest_marker-is_worth stage_markers 0 s in
    (
      highest_marker-IsBelow stage_markers 0 s,
      worth,
      elim worth [
        | inl nothing ↦ omega (arith, nothing)
        | inr some_marker ↦
            is_worth-le stage_markers s (highest_marker stage_markers 0 s) 100 (ground arith)
              some_marker
      ],
      λ t. highest_marker-append stage_markers 0 0 s t (omega arith),
    )
