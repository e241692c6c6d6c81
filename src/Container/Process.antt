-- ===== src/Container/Process.antt =====
-- container/process.rs: the limits, the umask and the ids of a process. The resource of a limit is
-- named by the type of the limit, since each type has one.
use marstack_container.Prelude.{◌^◌, ◌%◌, ◌==◌, ◌&&◌, Bool, true, false, not, [], ◌∷◌}
use marstack_container.Std.Text.{codes}
use marstack_container.Std.Decimal.{int_to_string}
use marstack_container.Std.FilePath.{FilePath, root_dir, normal}
use marstack_container.Exec.{Exec, gets, when, if_some, ignore, for_each, ◌>>=◌, ◌>>◌}
use marstack_container.Os.{Os, call, nix_call, plain_call}
use marstack_container.Syscall.{setgroups, setgid, setuid, setrlimit}
use marstack_container.Syscall
use marstack_container.Spec.{Process, Rlimit, User}
use marstack_container.Bundle.Validate.{flatten}
use marstack_container.Container.Capabilities.{keep_caps_across_setuid}

abbrev pub oom_file : FilePath
oom_file =
    root_dir ∷ normal (codes "proc") ∷ normal (codes "self") ∷ normal (codes "oom_score_adj") ∷ []

module _ (os : Os) where
  unfoldable pub apply_limit : Rlimit → Exec os.World (Unit {0})
  apply_limit limit = nix_call os "setrlimit" (os.sys (setrlimit limit.typ limit.soft limit.hard))

  unfoldable pub apply_limits : Process → Exec os.World (Unit {0})
  unfolding apply_limit
  apply_limits process = for_each apply_limit (flatten process.rlimits)

  unfoldable pub apply_oom_score_adj : Process → Exec os.World (Unit {0})
  apply_oom_score_adj process =
      if_some process.oom_score_adj
        (λ score. call os "write oom_score_adj" (os.write oom_file (int_to_string score)))

  -- `umask` does not fail.
  unfoldable pub apply_umask : Process → Exec os.World (Unit {0})
  apply_umask process =
      if_some process.user.umask
        (λ mask. ignore (plain_call os (os.sys (Syscall.umask (mask % 2 ^ 12)))))

  -- Whether the change of ids is one from root to another user.
  unfoldable pub leaves_root : User → os.World → Bool
  leaves_root user w = os.is_root w && not (user.uid == 0)

  -- The groups first and the user last; the capabilities are kept across a change from root.
  unfoldable pub drop_privileges : Process → Exec os.World (Unit {0})
  unfolding leaves_root keep_caps_across_setuid
  drop_privileges process = do
    leaving_root ← gets (leaves_root process.user)
    nix_call os "setgroups" (os.sys (setgroups (flatten process.user.additional_gids)))
    when leaving_root (keep_caps_across_setuid os true)
    nix_call os "setgid" (os.sys (setgid process.user.gid))
    nix_call os "setuid" (os.sys (setuid process.user.uid))
    when leaving_root (keep_caps_across_setuid os false)
