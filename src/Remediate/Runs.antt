-- ===== src/Remediate/Runs.antt =====
-- How the commands of an action of pkg/fleet/remediate end.
use cloudflared_fips.Prelude.{
  ◌≡◌, refl, String, ◌⊎◌, inl, inr, List, [], ◌∷◌, ◌++◌, Option, none, some, Option-cases, arith,
}
use cloudflared_fips.Prelude.Text.{concat}
use cloudflared_fips.Remediate.Host.{Command, Host, lines_of, run_all}

-- the commands that have been run, the last one first, after those of a list
abbrev pub after : List Command → List Command → List Command
after [] ran = ran
after (c ∷ cmds) ran = after cmds (c ∷ ran)

-- no command of the list fails, each run after those before it
abbrev pub AllSucceed : Host → List Command → List Command → Type 0
AllSucceed h [] ran = Unit
AllSucceed h (c ∷ cmds) ran = ((h.combined_output ran c).1 ≡ none) × AllSucceed h cmds (c ∷ ran)

-- the command whose error ended the run, and the commands around it
pub record Broke (h : Host) (cmds ran : List Command) (error : Option String) (now : List Command)
    : Type 0 where
  pub before : List Command
  pub broken : Command
  pub rest : List Command
  pub reason : String
  pub split : cmds ≡ before ++ broken ∷ rest
  pub fine : AllSucceed h before ran
  pub answered : (h.combined_output (after before ran) broken).1 ≡ some reason
  pub told : error ≡ some (concat broken.name (concat " failed: " reason))
  pub stopped : now ≡ broken ∷ after before ran

Broke-cons :
    (h : Host) (c : Command) (cmds ran : List Command) (error : Option String) (now : List Command)
    → (h.combined_output ran c).1 ≡ none
    → Broke h cmds (c ∷ ran) error now
    → Broke h (c ∷ cmds) ran error now
Broke-cons h c cmds ran error now first b = record {
  before = c ∷ b.before;
  broken = b.broken;
  rest = b.rest;
  reason = b.reason;
  split = ground (arith, b.split);
  fine = (first, b.fine);
  answered = b.answered;
  told = b.told;
  stopped = b.stopped;
}

-- The loop over the commands of an installation has one of two ends. Where every command succeeds, it
-- has run all of them, in order, and reports no error. Otherwise it stops right after the first
-- command that fails: those before it have been run and have succeeded, those after it have not been
-- run, and the error names the command and its reason.
pub run_all-stops :
    (h : Host) (cmds : List Command) (all_output : String) (ran : List Command)
    → let (outcome, now) = run_all h cmds all_output ran in
      (AllSucceed h cmds ran × (outcome.error ≡ none) × (now ≡ after cmds ran))
      ⊎ Broke h cmds ran outcome.error now
unfolding run_all
run_all-stops h [] all_output ran = inl (tt, refl, refl)
run_all-stops h (c ∷ cmds) all_output ran =
    let text = lines_of all_output (h.combined_output ran c).0 in
    elim (Option-cases (h.combined_output ran c).1) [
      | inl e ↦
          rw (run_all, e)
            (elim (run_all-stops h cmds text (c ∷ ran)) [
              | inl (fine, p, q) ↦ inl ((refl, fine), p, q)
              | inr b ↦ inr (Broke-cons h c cmds ran _ _ e b)
            ])
      | inr (reason, e) ↦
          rw (run_all, e)
            (inr (record {
              before = [];
              broken = c;
              rest = cmds;
              reason = reason;
              split = refl;
              fine = tt;
              answered = e;
              told = refl;
              stopped = refl;
            }))
    ]
