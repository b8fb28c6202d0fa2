-- ===== src/Utils/Laws.antt =====
-- The paths that `ParseUnixSocketURL` (internal/utils/utils.go) accepts.
use lxd_csi_driver.Base.{
  true, false, Result, ok, err, ◌≡◌, refl, if◌then◌else◌, arith, ap, ◌∙◌, Bool-cases, inl, inr,
}
use lxd_csi_driver.Strings.{Text, codes, is_empty, text_eq, has_prefix}
use lxd_csi_driver.Strings.Equality.{text_eq_iff}
use lxd_csi_driver.FilePath.{join_path}
use lxd_csi_driver.Lxd.{Env, Url}
use lxd_csi_driver.Utils.{
  has_suffix_slash, rooted, socket_path_of, check_socket_path, check_url, parse_unix_socket_url,
}

rooted_lem : (path : Text) → has_prefix (rooted path) (codes "/") ≡ true
unfolding has_prefix
rooted_lem path = elim (Bool-cases (has_prefix path (codes "/"))) [
  | inl e ↦ rw (e, has_prefix) e
  | inr e ↦ rw (e, has_prefix) refl
]

socket_path_of_lem : (u : Url) → has_prefix (socket_path_of u) (codes "/") ≡ true
unfolding socket_path_of
socket_path_of_lem u = rooted_lem (if is_empty u.host then u.path else join_path u.host u.path)

-- What an accepted endpoint says: its scheme is "unix", and the path is absolute and ends in no slash.
pub record IsSocketPath (u : Url) (path : Text) : Type 0 where
  pub unix_scheme : u.scheme ≡ codes "unix"
  pub absolute : has_prefix path (codes "/") ≡ true
  pub no_directory : has_suffix_slash path ≡ false

check_socket_path_sound :
    {Err : Type 0} (v : Url) {u : Url} (p : Text) {path : Text}
    → check_socket_path {Err = Err} v p ≡ ok (u, path)
    → (u ≡ v) × (path ≡ p) × (has_suffix_slash p ≡ false)
unfolding check_socket_path
check_socket_path_sound v p h = ground arith

check_url_sound :
    {Err : Type 0} (r : Result Err Url) {u : Url} {path : Text}
    → check_url r ≡ ok (u, path)
    → IsSocketPath u path
unfolding check_url
check_url_sound (err e) h = cc
check_url_sound {Err} (ok v) {u} {path} h = elim (Bool-cases (text_eq v.scheme (codes "unix"))) [
  | inl unix ↦
      let (u_eq, path_eq, no_slash) =
        check_socket_path_sound {Err = Err} v {u = u} (socket_path_of v) {path = path}
          (rw (unix, check_url) at h) in
      record {
        unix_scheme =
            ap (λ (x : Url). x.scheme) u_eq ∙ (text_eq_iff v.scheme (codes "unix")).0 unix;
        absolute = rw path_eq (socket_path_of_lem v);
        no_directory = rw path_eq no_slash;
      }
  | inr other ↦ let e : ⊥ = cc (rw (other, check_url) at h) in absurd e
]

-- An endpoint is accepted only with the scheme "unix", and the path that is answered is absolute and
-- ends in no slash.
pub parse_unix_socket_url_sound :
    (E : Env) (endpoint : Text) {u : Url} {path : Text}
    → parse_unix_socket_url E endpoint ≡ ok (u, path)
    → IsSocketPath u path
unfolding parse_unix_socket_url
parse_unix_socket_url_sound E endpoint h = check_url_sound (E.parse_url endpoint) h
