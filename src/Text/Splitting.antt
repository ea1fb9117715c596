-- ===== src/Text/Splitting.antt =====
-- The splitting loops, on pieces that end with a separator each.
use ft_irc_duck.Base.{
  ℕ, zero, suc, ◌≤◌, false, List, [], ◌∷◌, ◌++◌, ◌≡◌, refl, arith, length, All, length-append,
  take-append_length, drop-length_add,
}
use ft_irc_duck.Text.{Text, has, find}
use ft_irc_duck.Text.Equality.{find-none, find-append}
use ft_irc_duck.Text.Split.{cut_by, cut_commas}

-- The pieces, each with a separator behind it, and the rest.
abbrev pub rejoin : ℕ → List Text → Text → Text
rejoin sep [] rest = rest
rejoin sep (p ∷ ps) rest = p ++ sep ∷ rejoin sep ps rest

abbrev pub Lacks : ℕ → Text → Type 0
Lacks sep t = has sep t ≡ false

pub length-rejoin :
    (sep : ℕ) (ps : List Text) (rest : Text) → length ps ≤ length (rejoin sep ps rest)
length-rejoin sep [] rest = omega arith
length-rejoin sep (p ∷ ps) rest =
    omega (arith, length-append p (sep ∷ rejoin sep ps rest), length-rejoin sep ps rest)

pub cut_by-rejoin :
    (sep fuel : ℕ) (ps : List Text) (rest : Text)
    → length ps ≤ fuel
    → All (Lacks sep) ps
    → Lacks sep rest
    → cut_by (find sep) 1 fuel (rejoin sep ps rest) ≡ (ps, rest)
unfolding cut_by
cut_by-rejoin sep zero [] rest h hp hr = refl
cut_by-rejoin sep zero (p ∷ ps) rest h hp hr = absurd (omega arith)
cut_by-rejoin sep (suc fuel) [] rest h hp hr = rw (find-none sep rest hr, cut_by) refl
cut_by-rejoin sep (suc fuel) (p ∷ ps) rest h hp hr =
    rw (find-append sep p (rejoin sep ps rest) hp.0, cut_by)
      (rw
        (
          drop-length_add p (sep ∷ rejoin sep ps rest) 1,
          take-append_length p (sep ∷ rejoin sep ps rest),
        )
        (rw (cut_by-rejoin sep fuel ps rest (omega arith) hp.1 hr) refl))

-- Pieces without commas, joined by commas, are split into just these pieces, and the loop ends
-- with what stood behind the last comma: it never runs out of rounds.
pub cut_commas-rejoin :
    (ps : List Text) (rest : Text)
    → All (Lacks b',') ps
    → Lacks b',' rest
    → cut_commas (rejoin b',' ps rest) ≡ (ps, rest)
unfolding cut_commas
cut_commas-rejoin ps rest hp hr =
    cut_by-rejoin b',' (length (rejoin b',' ps rest)) ps rest (length-rejoin b',' ps rest) hp hr
