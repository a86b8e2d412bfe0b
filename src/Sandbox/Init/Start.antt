-- ===== src/Sandbox/Init/Start.antt =====
-- When the wrapper starts a command, and under which restrictions.
use open_pincery.Prelude.{
  ℕ, ◌≡◌, ◌≢◌, refl, ap, subst, ◌⊎◌, inl, inr, String, Option, none, some, List, [], ◌∷◌,
}
use open_pincery.Sandbox.Kernel.{
  IoError, started, Log, Kernel, Outcome, done, stop, panics, proceed, ◌>>=◌, pure, fail,
}
use open_pincery.Sandbox.Policy.{SandboxInitPolicy, Codec, Decoded, policy, codec}
use open_pincery.Sandbox.Init.{
  InitError, apply_policy, exec_user_argv, replaced, decoded, run_inner,
}
use open_pincery.Sandbox.Init.Facts.{Restricted}
use open_pincery.Sandbox.Init.Restrict.{apply_policy-Restricted}
use open_pincery.Sandbox.Kernel.Quiet.{starts}
use open_pincery.Sandbox.Init.Quiet.{apply_policy-Quiet}

-- The command of the encoded policy runs, and the log ends with the policy's restrictions.
pub record Confined (k : Kernel) (c : Codec) (bytes : List ℕ) (log log' : Log) : Type 0 where
  pub p : SandboxInitPolicy
  pub end : Log
  pub encoded : c.from_bytes bytes ≡ policy p
  pub restricted : Restricted k p log end
  pub silent : starts end ≡ starts log
  pub command : log' ≡ started p.user_argv ∷ end

module _ (k : Kernel) (c : Codec) (bytes : List ℕ) (log : Log) where
  abbrev Ends : Outcome InitError (Unit {0}) × Log → Type 0
  Ends (r, log') =
      ((r ≢ done tt) × (starts log' ≡ starts log)) ⊎ ((r ≡ done tt) × Confined k c bytes log log')

  replaced-Ends :
      (p : SandboxInitPolicy) (end : Log) (argv : List String) (o : Option IoError)
      → c.from_bytes bytes ≡ policy p
      → Restricted k p log end
      → starts end ≡ starts log
      → argv ≡ p.user_argv
      → Ends (replaced argv o end)
  replaced-Ends p end argv none e r q same = inr (
    refl,
    record {
      p = p;
      end = end;
      encoded = e;
      restricted = r;
      silent = q;
      command = ap (λ a. started a ∷ end) same;
    },
  )
  replaced-Ends p end argv (some x) e r q same = inl (cc, q)

  exec_user_argv-Ends :
      (p : SandboxInitPolicy) (end : Log) (argv : List String)
      → c.from_bytes bytes ≡ policy p
      → Restricted k p log end
      → starts end ≡ starts log
      → argv ≡ p.user_argv
      → Ends (exec_user_argv k argv end)
  unfolding exec_user_argv
  exec_user_argv-Ends p end [] e r q same = inl (cc, q)
  exec_user_argv-Ends p end (program ∷ rest) e r q same =
      replaced-Ends p end (program ∷ rest) (k.exec end (program ∷ rest)) e r q same

  apply_policy-Ends :
      (p : SandboxInitPolicy)
      → c.from_bytes bytes ≡ policy p
      → Ends ((apply_policy k p >>= λ _. exec_user_argv k p.user_argv) log)
  unfolding ◌>>=◌
  apply_policy-Ends p e =
      go (apply_policy k p log) (λ end h. apply_policy-Restricted k p log h)
        ((apply_policy-Quiet k p).at log)
    where
      go :
          (s : Outcome InitError (Unit {0}) × Log)
          → ((end : Log) → s ≡ (done tt, end) → Restricted k p log end)
          → starts s.1 ≡ starts log
          → Ends (proceed s.0 (λ _. exec_user_argv k p.user_argv) s.1)
      go (done u, end) r q = exec_user_argv-Ends p end p.user_argv e (r end refl) q refl
      go (stop x, end) r q = inl (cc, q)
      go (panics, end) r q = inl (cc, q)

  -- Whatever the kernel answers: if the wrapper does not succeed, it has started no command; if it
  -- does, it has started exactly one, the command of the policy that was encoded, as the last
  -- thing, after `no_new_privs` was set and read back as 1, all six user and group slots were read
  -- as the target's and the effective capabilities were read as empty. If the policy names a path,
  -- its path rules were granted, and its scopes if it has any; without a path neither is. If the
  -- policy has a system call filter, that was granted and read as active; an empty one is skipped,
  -- also where full enforcement is demanded. If it is demanded, the path rules, if there are any,
  -- were reported as fully enforced, and the filter, if there is one, was read as active once more.
  pub run_inner-Confined :
      {r : Outcome InitError (Unit {0})} {log' : Log}
      → run_inner k c bytes log ≡ (r, log')
      → ((r ≢ done tt) × (starts log' ≡ starts log)) ⊎ ((r ≡ done tt) × Confined k c bytes log log')
  unfolding run_inner ◌>>=◌ pure fail
  run_inner-Confined h = subst Ends h (go (c.from_bytes bytes) refl)
    where
      go :
          (d : Decoded)
          → c.from_bytes bytes ≡ d
          → Ends ((decoded d >>= λ p. apply_policy k p >>= λ _. exec_user_argv k p.user_argv) log)
      go (policy p) e = apply_policy-Ends p e
      go (codec x) e = inl (cc, refl)
