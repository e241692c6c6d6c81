-- ===== src/Tests/Privileges.antt =====
-- The capability sets of a sample process.
use marstack_container.Prelude.{
  ℕ, ◌≡◌, refl, true, Option, none, some, List, [], ◌∷◌, All, if◌then◌else◌,
}
use marstack_container.Std.Text.{Text, codes, text_eq}
use marstack_container.Error.{ok}
use marstack_container.Exec
use marstack_container.Os.{done}
use marstack_container.Spec.{LinuxCapabilities}
use marstack_container.Container.Capabilities
use marstack_container.Container.Capabilities.{Caps, parse, is_subset}
use marstack_container.Container.Capabilities.Raised.{Replaced, IsRaised, apply-Raised}
use marstack_container.Tests.Cradle.{cradle}
use marstack_container.Tests.Vigils.{dawn}

-- Two capabilities by their names.
unfoldable pub kernel_number : Text → Option ℕ
kernel_number name =
    if text_eq name (codes "CAP_CHOWN")
    then some 0
    else if text_eq name (codes "CAP_KILL")
    then some 5
    else none

abbrev pub cradle_caps : Caps cradle
cradle_caps = record {
  from_str = kernel_number;
  read = λ which w. done (0 ∷ 5 ∷ []);
  set = λ which value w. (done tt, w);
  clear = λ which w. (done tt, w);
  raise = λ which c w. (done tt, w);
  drop = λ which c w. (done tt, w);
}

abbrev pub kill_only : Option (List Text)
kill_only = some (codes "CAP_KILL" ∷ [])

abbrev pub killer : LinuxCapabilities
killer = record {
  bounding_names = kill_only;
  effective_names = kill_only;
  inheritable_names = kill_only;
  permitted_names = some (codes "CAP_CHOWN" ∷ codes "CAP_KILL" ∷ []);
  ambient_names = kill_only;
}

killer_applies : Capabilities.apply cradle cradle_caps killer dawn ≡ (ok tt, dawn)
unfolding Capabilities.apply Exec.for_each kernel_number text_eq
killer_applies = refl

killer_drops : Capabilities.drop_bounding cradle cradle_caps killer dawn ≡ (ok tt, dawn)
unfolding Capabilities.drop_bounding Exec.for_each kernel_number text_eq
killer_drops = refl

apply-Raised_example :
    (ps es is bs : List ℕ) × (parse cradle cradle_caps killer.permitted_names ≡ ok ps)
    × (parse cradle cradle_caps killer.effective_names ≡ ok es)
    × (parse cradle cradle_caps killer.inheritable_names ≡ ok is)
    × (parse cradle cradle_caps killer.ambient_names ≡ ok bs)
    × (is_subset es ps ≡ true)
    × Replaced cradle cradle_caps ps es is dawn
    × All (IsRaised cradle cradle_caps ps is) bs
apply-Raised_example = apply-Raised cradle cradle_caps killer dawn dawn killer_applies
