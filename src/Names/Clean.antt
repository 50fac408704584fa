-- ===== src/Names/Clean.antt =====
-- What `cleanDisplayName` of packages/game-core/src/names.js leaves of a name.
use mathlib.Core.List.{reverse, reverse_aux, reverse-append, reverse-reverse}
use ottv.Prelude.{
  ℕ, zero, suc, ◌≤◌, ◌+◌, ◌≡◌, refl, sym, ap, ◌∙◌, ◌++◌, Bool, false, ◌&&◌, ◌||◌, not, [], ◌∷◌,
  ◌==◌, filter, length, any, arith, if◌then◌else◌,
}
use ottv.Names.{
  Text, is_space, is_angle, strip_tags, collapse, trim_start, trim, take, clean_display_name,
}

length-reverse_aux : (xs ys : Text) → length (reverse_aux xs ys) ≡ length xs + length ys
length-reverse_aux [] ys = omega arith
length-reverse_aux (x ∷ xs) ys = omega (arith, length-reverse_aux xs (x ∷ ys))

length-trim_start-le : (cs : Text) → length (trim_start cs) ≤ length cs
unfolding trim_start
length-trim_start-le [] = omega arith
length-trim_start-le (c ∷ cs) = ground (arith, length-trim_start-le cs)

length-trim-le : (cs : Text) → length (trim cs) ≤ length cs
unfolding trim
length-trim-le cs =
    let once = trim_start cs in
    omega (
      arith,
      length-trim_start-le cs,
      length-reverse_aux once [],
      length-trim_start-le (reverse once),
      length-reverse_aux (trim_start (reverse once)) [],
    )

length-take-le : (n : ℕ) (cs : Text) → length (take n cs) ≤ n
length-take-le zero cs = omega arith
length-take-le (suc n) [] = omega arith
length-take-le (suc n) (c ∷ cs) = omega (arith, length-take-le n cs)

-- What no unit of a text is, no unit of its parts is.
module _ (p : ℕ → Bool) where
  any-reverse_aux : (xs ys : Text) → any p (reverse_aux xs ys) ≡ (any p xs || any p ys)
  any-reverse_aux [] ys = refl
  any-reverse_aux (x ∷ xs) ys = ground (arith, any-reverse_aux xs (x ∷ ys))

  any-trim_start : (cs : Text) → any p cs ≡ false → any p (trim_start cs) ≡ false
  unfolding trim_start
  any-trim_start [] h = h
  any-trim_start (c ∷ cs) h = ground (arith, any-trim_start cs)

  any-trim : (cs : Text) → any p cs ≡ false → any p (trim cs) ≡ false
  unfolding trim
  any-trim cs h =
      let once = trim_start cs in
      let h₁ = any-trim_start cs h in
      let h₂ : any p (reverse once) ≡ false = ground (arith, any-reverse_aux once []) in
      let h₃ = any-trim_start (reverse once) h₂ in
      ground (arith, any-reverse_aux (trim_start (reverse once)) [])

  any-take : (n : ℕ) (cs : Text) → any p cs ≡ false → any p (take n cs) ≡ false
  any-take zero cs h = refl
  any-take (suc n) [] h = refl
  any-take (suc n) (c ∷ cs) h = ground (arith, any-take n cs)

any-filter-not : (p : ℕ → Bool) (cs : Text) → any p (filter (λ c. not (p c)) cs) ≡ false
any-filter-not p [] = refl
any-filter-not p (c ∷ cs) = ground (arith, any-filter-not p cs)

any-angle-collapse :
    (spaced : Bool) (cs : Text)
    → any is_angle cs ≡ false
    → any is_angle (collapse spaced cs) ≡ false
unfolding collapse
any-angle-collapse spaced [] h = refl
any-angle-collapse spaced (c ∷ cs) h = ground (arith, any-angle-collapse (is_space c) cs)

-- White space other than the plain blank.
abbrev pub odd_space : ℕ → Bool
odd_space c = is_space c && not (c == 32)

any-odd-collapse : (spaced : Bool) (cs : Text) → any odd_space (collapse spaced cs) ≡ false
unfolding collapse
any-odd-collapse spaced [] = refl
any-odd-collapse spaced (c ∷ cs) = ground (arith, any-odd-collapse (is_space c) cs)

abbrev pub starts_blank : Text → Bool
starts_blank [] = false
starts_blank (c ∷ cs) = is_space c

-- Trimming cuts a beginning off.
dropped : Text → Text
dropped [] = []
dropped (c ∷ cs) = let rest = dropped cs in if is_space c then c ∷ rest else []

dropped-append : (cs : Text) → dropped cs ++ trim_start cs ≡ cs
unfolding dropped trim_start
dropped-append [] = refl
dropped-append (c ∷ cs) = ground (arith, dropped-append cs)

trim_start-starts_blank : (cs : Text) → starts_blank (trim_start cs) ≡ false
unfolding trim_start
trim_start-starts_blank [] = refl
trim_start-starts_blank (c ∷ cs) = ground (arith, trim_start-starts_blank cs)

starts_blank-append : (xs ys : Text) → starts_blank (xs ++ ys) ≡ false → starts_blank xs ≡ false
starts_blank-append [] ys h = refl
starts_blank-append (x ∷ xs) ys h = h

trim-append : (cs : Text) → trim cs ++ reverse (dropped (reverse (trim_start cs))) ≡ trim_start cs
unfolding trim
trim-append cs =
    let r = reverse (trim_start cs) in
    sym (reverse-append (dropped r) (trim_start r))
    ∙ ap reverse (dropped-append r)
    ∙ reverse-reverse (trim_start cs)

trim-starts_blank : (cs : Text) → starts_blank (trim cs) ≡ false
trim-starts_blank cs =
    starts_blank-append _ _ (ap starts_blank (trim-append cs) ∙ trim_start-starts_blank cs)

trim-ends_blank : (cs : Text) → starts_blank (reverse (trim cs)) ≡ false
unfolding trim
trim-ends_blank cs =
    ap starts_blank (reverse-reverse (trim_start (reverse (trim_start cs))))
    ∙ trim_start-starts_blank _

-- A name fit to be shown.
pub record IsShown (max : ℕ) (name : Text) : Type 0 where
  pub short : length name ≤ max
  pub no_angles : any is_angle name ≡ false
  pub plain_blanks : any odd_space name ≡ false
  pub no_blank_start : starts_blank name ≡ false
  pub no_blank_end : starts_blank (reverse name) ≡ false

-- Whatever the value and the bound, the cleaned name has at most as many units as the bound, no
-- angle bracket, no white space but the plain blank, and none at its beginning or its end.
pub clean_display_name-IsShown :
    (value : Text) (max : ℕ) → IsShown max (clean_display_name value max)
unfolding clean_display_name
clean_display_name-IsShown value max = record {
  short = omega (arith, length-trim-le cut, length-take-le max (trim spaced));
  no_angles =
      keeps is_angle
        (any-angle-collapse false kept (any-filter-not is_angle (strip_tags false value)));
  plain_blanks = keeps odd_space (any-odd-collapse false kept);
  no_blank_start = trim-starts_blank cut;
  no_blank_end = trim-ends_blank cut;
}
  where
    kept : Text
    kept = filter (λ c. not (is_angle c)) (strip_tags false value)

    spaced : Text
    spaced = collapse false kept

    cut : Text
    cut = take max (trim spaced)

    keeps : (p : ℕ → Bool) → any p spaced ≡ false → any p (trim cut) ≡ false
    keeps p h = any-trim p cut (any-take p max (trim spaced) (any-trim p spaced h))
