-- ===== src/Paging/Flushed.antt =====
-- Which lines of the caches the pflush functions make invalid.
use newmacemu.Common.{
  ℕ, zero, suc, ◌-◌, ◌%◌, ◌≤◌, ◌≡◌, ap, ◌∙◌, arith, Bool, true, false, not, ◌&&◌, ◌||◌, leb, ◌==◌,
  if◌then◌else◌,
}
use newmacemu.Machine.{AtcEntry, Paging}
use newmacemu.Paging.{line_of, same_set}
use newmacemu.Paging.Flush.{
  user_code, drop_line, drop_both, drop_all, pflush_impl, pflushn_impl, pflusha_impl, pflushan_impl,
}

abbrev pub invalidated : Bool → AtcEntry → AtcEntry
invalidated b e = if b then record e { v = false } else e

line-drop_line :
    (test : AtcEntry → Bool) (code sys other_code other_sys : Bool) (j k : ℕ) (p : Paging)
    → line_of (drop_line test code sys j p) other_code other_sys k
      ≡ invalidated
          (same_set other_code code
            && same_set other_sys sys
            && k % 16 == j % 16
            && test (line_of p other_code other_sys k))
          (line_of p other_code other_sys k)
line-drop_line test true sys true other_sys j k p = ground arith
line-drop_line test false sys true other_sys j k p = ground arith
line-drop_line test true sys false other_sys j k p = ground arith
line-drop_line test false sys false other_sys j k p = ground arith

-- One step of the pflush functions, on any line.
line-drop_both :
    (test : AtcEntry → Bool) (dfc : ℕ) (code sys : Bool) (j k : ℕ) (p : Paging)
    → line_of (drop_both test dfc j p) code sys k
      ≡ invalidated
          ((sys || user_code dfc) && k % 16 == j % 16 && test (line_of p code sys k))
          (line_of p code sys k)
line-drop_both test dfc true true j k p = ground arith
line-drop_both test dfc false true j k p = ground arith
line-drop_both test dfc true false j k p = ground arith
line-drop_both test dfc false false j k p = ground arith

-- What the rounds so far leave of a line, with its own test, and what one more round makes of it.
later_round :
    (n i : ℕ) (any : Bool) (test : AtcEntry → Bool) (e : AtcEntry)
    → suc n ≤ 16
    → invalidated
        (any && leb (16 - n) i && test (invalidated (any && i == 16 - suc n && test e) e))
        (invalidated (any && i == 16 - suc n && test e) e)
      ≡ invalidated (any && leb (16 - suc n) i && test e) e
later_round n i any test e h = ground arith

line-drop_all :
    (test : AtcEntry → Bool) (dfc n : ℕ) (code sys : Bool) (k : ℕ) (p : Paging)
    → n ≤ 16
    → line_of (drop_all test dfc n p) code sys k
      ≡ invalidated
          ((sys || user_code dfc) && leb (16 - n) (k % 16) && test (line_of p code sys k))
          (line_of p code sys k)
unfolding drop_all
line-drop_all test dfc zero code sys k p h = ground arith
line-drop_all test dfc (suc n) code sys k p h =
    let place : (16 - suc n) % 16 ≡ 16 - suc n = omega arith in
    let step = line-drop_both test dfc code sys (16 - suc n) k p in
    let rest =
      line-drop_all test dfc n code sys k (drop_both test dfc (16 - suc n) p) (omega arith) in
    rest
    ∙ ap (λ e. invalidated ((sys || user_code dfc) && leb (16 - n) (k % 16) && test e) e) step
    ∙ rw place (later_round n (k % 16) (sys || user_code dfc) test (line_of p code sys k) h)

and-true : (b : Bool) → (b && true) ≡ b
and-true b = ground arith

all_places :
    (any also : Bool) (k : ℕ) (e : AtcEntry)
    → invalidated (any && leb 0 (k % 16) && also) e ≡ invalidated (any && also) e
all_places any also k e = ground arith

-- PFLUSHA and PFLUSHAN: every line of the supervisor's caches, and every line of the user's if DFC is 1
-- or 2, is made invalid, for PFLUSHAN only if it is not global; no line changes otherwise.
pub pflusha-invalidates :
    (dfc : ℕ) (code sys : Bool) (k : ℕ) (p : Paging)
    → (line_of (pflusha_impl dfc p) code sys k
        ≡ invalidated (sys || user_code dfc) (line_of p code sys k))
      × (line_of (pflushan_impl dfc p) code sys k
          ≡ invalidated
              ((sys || user_code dfc) && not (line_of p code sys k).g)
              (line_of p code sys k))
unfolding pflusha_impl pflushan_impl
pflusha-invalidates dfc code sys k p =
    let any : Bool = sys || user_code dfc in
    (
      line-drop_all (λ e. true) dfc 16 code sys k p (omega arith)
          ∙ all_places any true k (line_of p code sys k)
          ∙ ap (λ b. invalidated b (line_of p code sys k)) (and-true any),
      line-drop_all (λ e. not e.g) dfc 16 code sys k p (omega arith)
          ∙ all_places any (not (line_of p code sys k).g) k (line_of p code sys k),
    )

-- PFLUSH and PFLUSHN: the lines of the page are made invalid, for PFLUSHN only if not global, in the
-- supervisor's caches, and in the user's if DFC is 1 or 2; no line changes otherwise.
pub pflush-invalidates :
    (dfc addr : ℕ) (code sys : Bool) (k : ℕ) (p : Paging)
    → (line_of (pflush_impl dfc addr p) code sys k
        ≡ invalidated
            ((sys || user_code dfc) && k % 16 == addr % 16 && (line_of p code sys k).laddr == addr)
            (line_of p code sys k))
      × (line_of (pflushn_impl dfc addr p) code sys k
          ≡ invalidated
              ((sys || user_code dfc)
                && k % 16 == addr % 16
                && ((line_of p code sys k).laddr == addr && not (line_of p code sys k).g))
              (line_of p code sys k))
unfolding pflush_impl pflushn_impl
pflush-invalidates dfc addr code sys k p = (
  line-drop_both (λ e. e.laddr == addr) dfc code sys addr k p,
  line-drop_both (λ e. e.laddr == addr && not e.g) dfc code sys addr k p,
)
