-- ===== src/Exchange/Sending/Merging.antt =====
-- merge_msgs of srcs/messages/send_messages.cpp: what it keeps, and that its loops end.
use ft_irc_duck.Base.{
  none, ℕ, zero, suc, ◌≤◌, some, List, [], ◌∷◌, ◌++◌, ◌≡◌, refl, sym, ◌∙◌, ap, arith, inl, inr,
  if◌then◌else◌, Option-cases, Bool-cases, length, length-append, append_assoc,
}
use ft_irc_duck.Text.{Text, text_eq}
use ft_irc_duck.Text.Equality.{text_eq_iff}
use ft_irc_duck.Map.{FdSet}
use ft_irc_duck.Message.{Message}
use ft_irc_duck.Exchange.Sending.{Found, find_same, absorb, resume, merge_from, merge_msgs}

-- All that is said to exactly the given clients, in the order of the messages.
abbrev pub said : FdSet → List Message → Text
said target [] = []
said target (m ∷ ms) = (if text_eq target m.target then m.text else []) ++ said target ms

-- What find_same finds.
pub record IsFound (target : FdSet) (ms : List Message) (f : Found) : Type 0 where
  pub parts : ms ≡ f.before ++ f.found ∷ f.after
  pub same : f.found.target ≡ target
  pub silent : said target f.before ≡ []

pub find_same-IsFound :
    (target : FdSet) (ms : List Message) (f : Found)
    → find_same target ms ≡ some f
    → IsFound target ms f
unfolding find_same
find_same-IsFound target [] f h = cc
find_same-IsFound target (m ∷ ms) f h = elim (Bool-cases (text_eq target m.target)) [
  | inl e ↦ record {
    parts = ground (arith, e, h);
    same = ground (arith, e, h, text_eq_iff target m.target);
    silent = ground (arith, e, h);
  }
  | inr e ↦ elim (Option-cases (find_same target ms)) [
    | inl q ↦ absurd (ground (arith, e, q, h))
    | inr (g, q) ↦
        let k = find_same-IsFound target ms g q in
        let same : f ≡ record g { before = m ∷ g.before } = ground (arith, e, q, h) in
        rw same (record { parts = ap (◌∷◌ m) k.parts; same = k.same; silent = rw e k.silent })
  ]
]

said-append :
    (target : FdSet) (ms ns : List Message)
    → said target (ms ++ ns) ≡ said target ms ++ said target ns
said-append target [] ns = refl
said-append target (m ∷ ms) ns = rw (said-append target ms ns) (
    sym (
      append_assoc (if text_eq target m.target then m.text else []) (said target ms)
        (said target ns)))

resume-said :
    (target : FdSet) (go_on : List Message → List Message)
    → ((ms : List Message) → said target (go_on ms) ≡ said target ms)
    → (m : Message) (before after : List Message)
    → said target (resume go_on m before after) ≡ said target (m ∷ before ++ after)
unfolding resume
resume-said target go_on h m [] after = h (m ∷ after)
resume-said target go_on h m (x ∷ xs) after =
    ap (◌++◌ (if text_eq target m.target then m.text else []))
      (resume-said target go_on h x xs after)

absorb-said :
    (target : FdSet) (m : Message) (ms : List Message) (f : Found)
    → IsFound m.target ms f
    → said target (absorb m f.found ∷ f.before ++ f.after) ≡ said target (m ∷ ms)
absorb-said target m ms f k = elim (Bool-cases (text_eq target m.target)) [
  | inl e ↦
      let silent =
        ap (λ (x : FdSet). said x f.before) ((text_eq_iff target m.target).0 e) ∙ k.silent in
      rw (said-append target f.before f.after, rest, k.same, e, silent)
        (append_assoc m.text f.found.text (said target f.after))
  | inr e ↦ rw (said-append target f.before f.after, rest, k.same, e) refl
]
  where
    rest :
        said target ms
        ≡ said target f.before
          ++ ((if text_eq target f.found.target then f.found.text else []) ++ said target f.after)
    rest = ap (said target) k.parts ∙ said-append target f.before (f.found ∷ f.after)

merge_from-said :
    (fuel : ℕ) (target : FdSet) (ms : List Message)
    → said target (merge_from fuel ms) ≡ said target ms
unfolding merge_from
merge_from-said zero target ms = refl
merge_from-said (suc fuel) target [] = refl
merge_from-said (suc fuel) target (m ∷ ms) = elim (Option-cases (find_same m.target ms)) [
  | inl e ↦
      rw (e, merge_from)
        (ap (◌++◌ (if text_eq target m.target then m.text else []))
          (merge_from-said fuel target ms))
  | inr (f, e) ↦
      rw (e, merge_from)
        (resume-said target (merge_from fuel) (merge_from-said fuel target) (absorb m f.found)
            f.before f.after
          ∙ absorb-said target m ms f (find_same-IsFound m.target ms f e))
]

-- Merging loses, repeats and reorders nothing: what is said to exactly some clients, read in the
-- order of the messages, is the same before and after it.
pub merge_msgs-said :
    (target : FdSet) (ms : List Message) → said target (merge_msgs ms) ≡ said target ms
unfolding merge_msgs
merge_msgs-said target ms = merge_from-said (length ms) target ms

-- The last of a message and those behind it, and what stands before that.
abbrev last_of : Message → List Message → Message
last_of m [] = m
last_of m (x ∷ xs) = last_of x xs

abbrev before_last : Message → List Message → List Message
before_last m [] = []
before_last m (x ∷ xs) = m ∷ before_last x xs

-- A run of the loops of merge_msgs in so many rounds: at the end; a message without another one for
-- the same clients stays; or the first such message is merged and erased, and the loops go on with the
-- message that stood before it.
pub data MergeRun : ℕ → List Message → List Message → Type 0 where
  done : MergeRun 0 [] []
  keep :
      {n : ℕ} {ns : List Message} (m : Message) (ms : List Message)
      → find_same m.target ms ≡ none
      → MergeRun n ms ns
      → MergeRun (suc n) (m ∷ ms) (m ∷ ns)
  merge :
      {n : ℕ} {ns : List Message} (m : Message) (ms : List Message) (f : Found)
      → find_same m.target ms ≡ some f
      → MergeRun n (last_of (absorb m f.found) f.before ∷ f.after) ns
      → MergeRun (suc n) (m ∷ ms) (before_last (absorb m f.found) f.before ++ ns)

resume_last :
    (go_on : List Message → List Message) (m : Message) (before after : List Message)
    → resume go_on m before after ≡ before_last m before ++ go_on (last_of m before ∷ after)
unfolding resume
resume_last go_on m [] after = refl
resume_last go_on m (x ∷ xs) after = ap (◌∷◌ m) (resume_last go_on x xs after)

-- A run that ends with what is given, within as many rounds as there are messages.
abbrev pub MergesTo : List Message → List Message → Type 0
MergesTo ms ns = (n : ℕ) × (n ≤ length ms) × MergeRun n ms ns

merge_from_runs :
    (fuel : ℕ) (ms : List Message) → length ms ≤ fuel → MergesTo ms (merge_from fuel ms)
unfolding merge_from
merge_from_runs zero [] h = (0, omega arith, done)
merge_from_runs zero (m ∷ ms) h = absurd (omega arith)
merge_from_runs (suc fuel) [] h = (0, omega arith, done)
merge_from_runs (suc fuel) (m ∷ ms) h = elim (Option-cases (find_same m.target ms)) [
  | inl e ↦
      let (n, le, run) = merge_from_runs fuel ms (omega arith) in
      (suc n, omega (arith, le), rw (e, merge_from) (keep m ms e run))
  | inr (f, e) ↦
      let p = (find_same-IsFound m.target ms f e).parts in
      let len = ap length p ∙ length-append f.before (f.found ∷ f.after) in
      let (n, le, run) =
        merge_from_runs fuel (last_of (absorb m f.found) f.before ∷ f.after) (omega (arith, len)) in
      (
        suc n,
        omega (arith, le, len),
        rw (e, merge_from, resume_last (merge_from fuel) (absorb m f.found) f.before f.after)
            (merge m ms f e run),
      )
]

-- The loops of merge_msgs end: a run of their rounds reaches the end of the messages within as many
-- rounds as there are messages, and leaves what merge_msgs gives.
pub merge_from_ends : (ms : List Message) → MergesTo ms (merge_msgs ms)
unfolding merge_msgs
merge_from_ends ms = merge_from_runs (length ms) ms (omega arith)
