-- ===== src/Encryptor/Exits.antt =====
-- The exit status of `main` and the outcome of `encrypt_tinymaix_model`.
use pico2w_tfm.Common.{◌≡◌, arith, Bool-cases, inl, inr}
use pico2w_tfm.Encryptor.Header.{Outcome, ok, raised}
use pico2w_tfm.Encryptor.Run.{Host, Run}
use pico2w_tfm.Encryptor.Outcomes.{After}
use pico2w_tfm.Encryptor.Workflow.{encrypt_tinymaix_model, Args, options_of, exit_status, main}

After-ended :
    (P : Unit {0} → Run → Type 0) (p : Outcome (Unit {0}) × Run)
    → After P p
    → exit_status p.0 ≡ 0
    → P tt p.1
After-ended P (ok tt, r) h e = h
After-ended P (raised _, r) h e = absurd (omega (arith, e))

-- What holds behind every outcome without an exception holds behind a run with status 0.
pub main-After :
    (host : Host) (P : Unit {0} → Run → Type 0) (args : Args) (r : Run)
    → After P (encrypt_tinymaix_model host (options_of args args.choice) r)
    → (main host args r).0 ≡ 0
    → P tt (main host args r).1
unfolding main
main-After host P args r h ended = elim (Bool-cases (host.exists args.input)) [
  | inl there ↦ rw there (
      After-ended P (encrypt_tinymaix_model host (options_of args args.choice) r) h
        (rw there at ended))
  | inr missing ↦ absurd (omega (arith, rw missing at ended))
]
