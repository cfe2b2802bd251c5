-- ===== src/Config/Defaults.antt =====
-- internal/config/config.go: when the server starts on its defaults.
use field_docket.Base.{◌≡◌, sym, ap, ◌↔◌, Bool, true, false, arith, Bytes, codes}
use field_docket.Go.Errors.{Error, is_not_exist, Result, ok, err, ok-injective}
use field_docket.Go.Text.{trim_space, is_empty}
use field_docket.Go.Host.{Host}
use field_docket.Config.{
  File, config_variable, expand_tilde, config_base, config_path, default_path, load_at, unread,
  load, defaults, name_path,
}

-- Neither `--config` nor `$FIELD_DOCKET_CONFIG` says anything.
abbrev pub IsUnasked : Host → Bytes → Type 0
IsUnasked H override =
    (is_empty (trim_space override) ≡ true)
    × (is_empty (trim_space (H.getenv config_variable)) ≡ true)

name_path-named :
    (named : Bool) (r : Result Bytes) {x : Bytes × Bool} → name_path named r ≡ ok x → x.1 ≡ named
unfolding name_path
name_path-named named (ok path) h = ap (λ (x : Bytes × Bool). x.1) (sym (ok-injective h))
name_path-named named (err e) h = cc

default_path-named : (r : Result Bytes) {x : Bytes × Bool} → default_path r ≡ ok x → x.1 ≡ false
unfolding default_path
default_path-named (ok base) h = ap (λ (x : Bytes × Bool). x.1) (sym (ok-injective h))
default_path-named (err e) h = cc

config_path-asked :
    (H : Host) (override : Bytes) {path : Bytes} {named : Bool}
    → config_path H override ≡ ok (path, named)
    → (named ≡ false) ↔ IsUnasked H override
unfolding config_path
config_path-asked H override {path} {named} h = ground (
  arith,
  name_path-named true (expand_tilde H (trim_space override) (codes "--config path"))
      {x = (path, named)},
  name_path-named true
      (expand_tilde H (trim_space (H.getenv config_variable)) (codes "FIELD_DOCKET_CONFIG path"))
      {x = (path, named)},
  default_path-named (config_base H) {x = (path, named)},
)

load_at-absent :
    (H : Host) (unmarshal : Bytes → Result File) (path : Bytes) (named : Bool) {e : Error}
    → H.read_file path ≡ err e
    → is_not_exist e ≡ true
    → (load_at H unmarshal (path, named) ≡ ok defaults) ↔ (named ≡ false)
unfolding load_at unread
load_at-absent H unmarshal path named missing absent = ground arith

-- Where the file that the configuration would be read from does not exist, `Load` gives the
-- defaults exactly if neither the flag nor the variable names a path.
load-absent :
    (H : Host) (unmarshal : Bytes → Result File) (override : Bytes) {path : Bytes} {named : Bool}
    {e : Error}
    → config_path H override ≡ ok (path, named)
    → H.read_file path ≡ err e
    → is_not_exist e ≡ true
    → (load H unmarshal override ≡ ok defaults) ↔ IsUnasked H override
unfolding load
load-absent H unmarshal override {path} {named} located missing absent =
    let asked = config_path-asked H override located in
    let here = load_at-absent H unmarshal path named missing absent in
    rw located (λ h. asked.0 (here.0 h), λ u. here.1 (asked.1 u))
