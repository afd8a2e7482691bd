-- ===== src/Auth/Account/Path.antt =====
-- Authentication/Backend.c: `resolve_demo_credential_path`. What `readlink` says of /proc/self/exe is
-- an argument, as is the size of the buffer, PATH_MAX.
use st5039cmd.Base.{
  ℕ, ◌+◌, ◌-◌, ◌<◌, ◌≡◌, false, List, [], ◌∷◌, ◌++◌, Option, none, some, length, take, take-short,
  length-append, ltb, leb, if◌then◌else◌, arith,
}
use st5039cmd.Base.CString.{codes, before_last_slash, IsName, before_last_slash-append}

-- CREDENTIALS_FILE_NAME.
abbrev pub credentials_file_name : List ℕ
credentials_file_name = codes "credentials.demo"

-- The path of the directory above, with its slash, in a buffer of `path_size` bytes.
unfoldable pub name_credentials : ℕ → Option (List ℕ) → Option (List ℕ)
name_credentials path_size none = none
name_credentials path_size (some front) =
    let directory = front ++ b'/' ∷ [] in
    if ltb (path_size - length directory) (length credentials_file_name + 1)
    then none
    else some (directory ++ credentials_file_name)

unfoldable pub parent_directory : Option (List ℕ) → Option (List ℕ)
parent_directory none = none
parent_directory (some path) = before_last_slash path

-- `readlink` writes at most `path_size - 1` bytes.
unfoldable pub resolve_demo_credential_path : ℕ → Option (List ℕ) → Option (List ℕ)
unfolding before_last_slash name_credentials parent_directory
resolve_demo_credential_path path_size none = none
resolve_demo_credential_path path_size (some link) =
    let path = take (path_size - 1) link in
    if leb (path_size - 1) (length path)
    then none
    else name_credentials path_size (parent_directory (before_last_slash path))

-- The program `ROOT/BUILD/NAME` reads `ROOT/credentials.demo`, if the two paths fit the buffer.
pub resolve_demo_credential_path_lem :
    (path_size : ℕ) (root build name : List ℕ)
    → IsName build
    → IsName name
    → length ((root ++ b'/' ∷ build) ++ b'/' ∷ name) + 1 < path_size
    → length root + 1 + length credentials_file_name < path_size
    → resolve_demo_credential_path path_size (some ((root ++ b'/' ∷ build) ++ b'/' ∷ name))
      ≡ some ((root ++ b'/' ∷ []) ++ credentials_file_name)
unfolding resolve_demo_credential_path name_credentials parent_directory
resolve_demo_credential_path_lem path_size root build name hb hn fits room =
    let front = root ++ b'/' ∷ build in
    let path = front ++ b'/' ∷ name in
    let whole : take (path_size - 1) path ≡ path = take-short _ path (omega arith) in
    let short : leb (path_size - 1) (length path) ≡ false = ground (arith, fits) in
    let directory = root ++ b'/' ∷ [] in
    let size : length directory ≡ length root + 1 = omega (arith, length-append root (b'/' ∷ [])) in
    let enough : ltb (path_size - length directory) (length credentials_file_name + 1) ≡ false =
      ground (arith, size, room) in
    rw (
      whole,
      short,
      before_last_slash-append front name hn,
      before_last_slash-append root build hb,
      enough,
    )
