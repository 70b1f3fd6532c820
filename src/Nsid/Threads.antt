-- ===== src/Nsid/Threads.antt =====
-- app_broker/tfm_nsid_map_table.c: the NSIDs of named threads.
use pico2w_tfm.Common.{
  ℕ, Bool, true, false, Option, none, some, List, [], ◌∷◌, Bytes, ◌==◌, if◌then◌else◌, ◌≡◌, ◌≢◌,
  ◌⊎◌, inl, inr, ◌↔◌, refl, sym, arith, All, Bool-cases, codes,
}
use pico2w_tfm.Common.Int.{ℤ, negsuc}
use mathlib.Core.Path.{subst}

-- `struct thread_test_nsid_pair`; a name is its characters before the final 0
pub record ThreadNsidPair : Type 0 where
  pub t_name : Bytes
  pub nsid : ℤ

abbrev pub default_nsid : ℤ
default_nsid = negsuc 0

-- The last row is there in a build with PSA_API_TEST_NS.
abbrev pub thread_nsid_table : Bool → List ThreadNsidPair
thread_nsid_table psa_api_test =
    record { t_name = b'T' ∷ b'h' ∷ b'r' ∷ b'e' ∷ b'a' ∷ b'd' ∷ b'_' ∷ b'A' ∷ []; nsid = negsuc 1 }
    ∷ record {
      t_name = b'T' ∷ b'h' ∷ b'r' ∷ b'e' ∷ b'a' ∷ b'd' ∷ b'_' ∷ b'B' ∷ [];
      nsid = negsuc 2;
    }
    ∷ record {
      t_name = b'T' ∷ b'h' ∷ b'r' ∷ b'e' ∷ b'a' ∷ b'd' ∷ b'_' ∷ b'C' ∷ [];
      nsid = negsuc 3;
    }
    ∷ record {
      t_name = b'T' ∷ b'h' ∷ b'r' ∷ b'e' ∷ b'a' ∷ b'd' ∷ b'_' ∷ b'D' ∷ [];
      nsid = negsuc 4;
    }
    ∷ record {
      t_name = b's' ∷ b'e' ∷ b'q' ∷ b'_' ∷ b't' ∷ b'a' ∷ b's' ∷ b'k' ∷ [];
      nsid = negsuc 5;
    }
    ∷ record {
      t_name = b'm' ∷ b'i' ∷ b'd' ∷ b'_' ∷ b't' ∷ b'a' ∷ b's' ∷ b'k' ∷ [];
      nsid = negsuc 6;
    }
    ∷ record {
      t_name = b'p' ∷ b'r' ∷ b'i' ∷ b'_' ∷ b't' ∷ b'a' ∷ b's' ∷ b'k' ∷ [];
      nsid = negsuc 7;
    }
    ∷ (if psa_api_test
        then record {
          t_name =
              b'p' ∷ b's' ∷ b'a' ∷ b'_' ∷ b'a' ∷ b'p' ∷ b'i' ∷ b'_' ∷ b't' ∷ b'e' ∷ b's' ∷ b't'
              ∷ [];
          nsid = negsuc 8;
        }
          ∷ []
        else [])

-- The loop: past the end of a string stands its 0, which is no character of the other.
unfoldable pub str_cmp : Bytes → Bytes → ℕ
str_cmp [] [] = 0
str_cmp [] (b ∷ bs) = 1
str_cmp (a ∷ l) [] = 1
str_cmp (a ∷ l) (b ∷ bs) = let rest = str_cmp l bs in if a == b then rest else 1

unfoldable pub find_thread : Bytes → List ThreadNsidPair → ℤ
find_thread t_name [] = default_nsid
find_thread t_name (p ∷ ps) =
    let rest = find_thread t_name ps in if str_cmp p.t_name t_name == 0 then p.nsid else rest

-- `none` is the null pointer.
unfoldable pub nsid_mgr_get_thread_nsid : Bool → Option Bytes → ℤ
nsid_mgr_get_thread_nsid psa_api_test none = default_nsid
nsid_mgr_get_thread_nsid psa_api_test (some t_name) =
    find_thread t_name (thread_nsid_table psa_api_test)

-- The comparison is 0 exactly on equal strings.
pub str_cmp_iff : (a b : Bytes) → (str_cmp a b ≡ 0) ↔ (a ≡ b)
unfolding str_cmp
str_cmp_iff [] [] = ground arith
str_cmp_iff [] (b ∷ bs) = ground arith
str_cmp_iff (a ∷ l) [] = ground arith
str_cmp_iff (a ∷ l) (b ∷ bs) = ground (arith, str_cmp_iff l bs)

-- the names that have an NSID of their own
abbrev pub test_threads : Bool → List Bytes
test_threads psa_api_test =
    codes "Thread_A"
    ∷ codes "Thread_B"
    ∷ codes "Thread_C"
    ∷ codes "Thread_D"
    ∷ codes "seq_task"
    ∷ codes "mid_task"
    ∷ codes "pri_task"
    ∷ (if psa_api_test then codes "psa_api_test" ∷ [] else [])

-- The NSID that a thread is to have, by its name: those of the test threads, that of the PSA API
-- test in its build, and -1 for a thread with another name or with none.
pub data HasNsid (psa_api_test : Bool) : Option Bytes → ℤ → Type 0 where
  thread_a : HasNsid psa_api_test (some (codes "Thread_A")) (negsuc 1)
  thread_b : HasNsid psa_api_test (some (codes "Thread_B")) (negsuc 2)
  thread_c : HasNsid psa_api_test (some (codes "Thread_C")) (negsuc 3)
  thread_d : HasNsid psa_api_test (some (codes "Thread_D")) (negsuc 4)
  seq_task : HasNsid psa_api_test (some (codes "seq_task")) (negsuc 5)
  mid_task : HasNsid psa_api_test (some (codes "mid_task")) (negsuc 6)
  pri_task : HasNsid psa_api_test (some (codes "pri_task")) (negsuc 7)
  api_test : psa_api_test ≡ true → HasNsid psa_api_test (some (codes "psa_api_test")) (negsuc 8)
  other :
      {name : Bytes}
      → All (λ listed. name ≢ listed) (test_threads psa_api_test)
      → HasNsid psa_api_test (some name) (negsuc 0)
  unnamed : HasNsid psa_api_test none (negsuc 0)

-- A thread that is found has the name and the NSID of a row; one that is not found has the default
-- NSID, and the name of no row.
find_thread-row :
    (P : Bytes → ℤ → Type 0) (t_name : Bytes) (ps : List ThreadNsidPair)
    → All (λ p. P p.t_name p.nsid) ps
    → ((find_thread t_name ps ≡ default_nsid) × All (λ p. t_name ≢ p.t_name) ps)
      ⊎ P t_name (find_thread t_name ps)
unfolding find_thread
find_thread-row P t_name [] h = inl (refl, tt)
find_thread-row P t_name (p ∷ ps) h = elim (Bool-cases (str_cmp p.t_name t_name == 0)) [
  | inl found ↦
      let same : p.t_name ≡ t_name = (str_cmp_iff p.t_name t_name).0 (ground arith) in
      rw found (inr (subst (λ n. P n p.nsid) same h.0))
  | inr other' ↦
      let differs : t_name ≢ p.t_name =
        λ e. absurd (ground (arith, (str_cmp_iff p.t_name t_name).1 (sym e))) in
      rw other' (elim (find_thread-row P t_name ps h.1) [
        | inl none' ↦ inl (none'.0, (differs, none'.1))
        | inr found ↦ inr found
      ])
]

found-HasNsid :
    (psa_api_test : Bool) (t_name : Bytes) (n : ℤ)
    → ((n ≡ default_nsid) × All (λ p. t_name ≢ p.t_name) (thread_nsid_table psa_api_test))
      ⊎ HasNsid psa_api_test (some t_name) n
    → HasNsid psa_api_test (some t_name) n
found-HasNsid psa_api_test t_name n (inr h) = h
found-HasNsid true t_name n (inl h) = rw h.0 (other h.1)
found-HasNsid false t_name n (inl h) = rw h.0 (other h.1)

-- `nsid_mgr_get_thread_nsid` gives a thread the NSID that it is to have.
pub nsid_mgr_get_thread_nsid-HasNsid :
    (psa_api_test : Bool) (name : Option Bytes)
    → HasNsid psa_api_test name (nsid_mgr_get_thread_nsid psa_api_test name)
unfolding nsid_mgr_get_thread_nsid
nsid_mgr_get_thread_nsid-HasNsid psa_api_test none = unnamed
nsid_mgr_get_thread_nsid-HasNsid true (some t_name) = found-HasNsid true t_name _ (
    find_thread-row (λ n v. HasNsid true (some n) v) t_name (thread_nsid_table true)
      (
        thread_a,
        (thread_b, (thread_c, (thread_d, (seq_task, (mid_task, (pri_task, (api_test refl, tt))))))),
      ))
nsid_mgr_get_thread_nsid-HasNsid false (some t_name) = found-HasNsid false t_name _ (
    find_thread-row (λ n v. HasNsid false (some n) v) t_name (thread_nsid_table false)
      (thread_a, (thread_b, (thread_c, (thread_d, (seq_task, (mid_task, (pri_task, tt))))))))
