-- ===== src/Exchange/Receiving/Lines.antt =====
-- The lines of a text that was read.
use ft_irc_duck.Base.{List, [], ◌∷◌, ◌++◌, map, ◌≡◌, refl, length, All}
use ft_irc_duck.Text.{Text}
use ft_irc_duck.Text.Splitting.{rejoin, Lacks, length-rejoin, cut_by-rejoin}
use ft_irc_duck.Exchange.Receiving.{split_lines}

-- A text of lines is cut into exactly these lines, each with its newline, and what stands behind the
-- last newline is left: the loop never runs out of rounds.
pub split_lines-rejoin :
    (lines : List Text) (rest : Text)
    → All (Lacks b'\n') lines
    → Lacks b'\n' rest
    → split_lines (rejoin b'\n' lines rest)
      ≡ (map (λ (line : Text). line ++ b'\n' ∷ []) lines, rest)
unfolding split_lines
split_lines-rejoin lines rest hl hr =
    rw
      (cut_by-rejoin b'\n' (length (rejoin b'\n' lines rest)) lines rest
        (length-rejoin b'\n' lines rest) hl hr)
      refl
