-- ===== src/Utils.antt =====
-- internal/utils/utils.go: `ParseUnixSocketURL`. `url.Parse` is a parameter.
pub mod Laws
use lxd_csi_driver.Base.{
  Bool, true, false, ◌||◌, not, List, [], ◌∷◌, ◌++◌, Result, ok, err, if◌then◌else◌, ◌==◌,
}
use lxd_csi_driver.Strings.{Text, codes, is_empty, text_eq, has_prefix}
use lxd_csi_driver.FilePath.{join_path}
use lxd_csi_driver.Lxd.{Env, Url}
use lxd_csi_driver.LxdErrors.{GoError, plain}

-- `strings.HasSuffix(s, "/")`
unfoldable pub has_suffix_slash : Text → Bool
has_suffix_slash [] = false
has_suffix_slash (c ∷ []) = c == b'/'
has_suffix_slash (c ∷ d ∷ s) = has_suffix_slash (d ∷ s)

abbrev rooted : Text → Text
rooted path = if has_prefix path (codes "/") then path else b'/' ∷ path

-- The path of the socket: the host, if there is one, is the first part of the path.
unfoldable pub socket_path_of : Url → Text
unfolding has_prefix
socket_path_of u = rooted (if is_empty u.host then u.path else join_path u.host u.path)

check_socket_path : {Err : Type 0} → Url → Text → Result (GoError Err) (Url × Text)
check_socket_path u path =
    if is_empty path || has_suffix_slash path
    then err (plain "Invalid endpoint %q: Socket path cannot be empty or point to a directory")
    else ok (u, path)

check_url : {Err : Type 0} → Result Err Url → Result (GoError Err) (Url × Text)
check_url (err e) = err (plain "Failed to parse endpoint %q: %v")
check_url (ok u) =
    if not (text_eq u.scheme (codes "unix"))
    then err (plain "Invalid endpoint %q: Unsupported scheme %q: Only unix sockets are supported")
    else check_socket_path u (socket_path_of u)

unfoldable pub parse_unix_socket_url : (E : Env) → Text → Result (GoError E.Err) (Url × Text)
unfolding check_url check_socket_path
parse_unix_socket_url E endpoint = check_url (E.parse_url endpoint)
