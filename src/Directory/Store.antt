-- ===== src/Directory/Store.antt =====
-- internal/directory/store.go: the accept list and the files of submitted descriptors. The directory
-- is a table from file names to bytes; whether a file can be read and written is an input.
pub mod Monotone
mod Tests
use osanwe.Prelude.{
  ℕ, ◌+◌, ◌-◌, ◌/◌, ◌%◌, Bool, true, false, not, ◌&&◌, ◌||◌, Option, none, some, List, [], ◌∷◌,
  ◌++◌, length, take, ltb, ◌==◌, if◌then◌else◌,
}
use osanwe.Prelude.Go.{Result, ok, err, ◌>>=◌}
use osanwe.Prelude.Table.{find, has, put}
use osanwe.Prelude.Text.{codes, bytes_eq, cut, trim_space}
use osanwe.Directory.{
  DirectoryError, not_accepted, expired_descriptor, stale_descriptor, other_owner, write_failed,
  Libraries, check, encode_key, decode_key,
}
use osanwe.Directory.Descriptor.{Descriptor, expired}
use osanwe.Directory.Descriptor.Parse.{parse_descriptor}

abbrev pub AcceptList : Type 0
AcceptList = List (List ℕ × List ℕ)

abbrev pub Disk : Type 0
Disk = List (List ℕ × List ℕ)

unfoldable pub key_and_label : List ℕ → Option (List ℕ × List ℕ) → List ℕ × List ℕ
key_and_label text none = (text, [])
key_and_label text (some both) = both

unfoldable pub is_comment : List ℕ → Bool
is_comment [] = true
is_comment (c ∷ s) = c == 35

-- The loop of (*AcceptList).Reload.
unfoldable pub read_accepted :
    Libraries → List (List ℕ) → AcceptList → Result DirectoryError AcceptList
unfolding key_and_label is_comment
read_accepted lib [] allowed = ok allowed
read_accepted lib (line ∷ lines) allowed =
    let skipped = read_accepted lib lines allowed in
    if is_comment (trim_space line) then skipped else do
      let both = key_and_label (trim_space line) (cut 32 (trim_space line))
      public ← decode_key lib both.0
      read_accepted lib lines (put (encode_key lib public) (trim_space both.1) allowed)

-- (*AcceptList).Reload: on an error the list that was loaded stays.
unfoldable pub reload :
    Libraries → List (List ℕ) → AcceptList → AcceptList × Result DirectoryError (Unit {0})
reload lib lines loaded = elim (read_accepted lib lines []) [
  | err e ↦ (loaded, err e)
  | ok allowed ↦ (allowed, ok tt)
]

-- (*AcceptList).Allows
unfoldable pub accepts : Option AcceptList → List ℕ → Bool
accepts none identity = false
accepts (some allowed) identity = has (trim_space identity) allowed

unfoldable pub hex_digit : ℕ → ℕ
hex_digit n = if ltb n 10 then 48 + n else 87 + n

unfoldable pub hex : List ℕ → List ℕ
unfolding hex_digit
hex [] = []
hex (b ∷ bs) = hex_digit (b / 16) ∷ hex_digit (b % 16) ∷ hex bs

-- (time.Time).Truncate(time.Second)
unfoldable pub to_second : ℕ → ℕ
to_second t = t - t % 1000000000

module _ (lib : Libraries) (sha256 : List ℕ → List ℕ) where
  -- (*Store).FileFor
  unfoldable pub file_for : List ℕ → List ℕ
  file_for identity = hex (take 16 (sha256 (trim_space identity))) ++ codes ".desc"

  unfoldable pub against_stored :
      Descriptor → Result DirectoryError Descriptor → Result DirectoryError (Unit {0})
  against_stored d (err _) = ok tt
  against_stored d (ok previous) = do
    _ ← check (ltb (to_second previous.published) (to_second d.published)) stale_descriptor
    check (bytes_eq previous.identity d.identity) other_owner

  -- os.ReadFile, whose errors are all taken for a file that is not there, and the comparison with
  -- what the file holds, if it can be parsed.
  unfoldable pub against_file :
      Bool → Descriptor → Option (List ℕ) → Result DirectoryError (Unit {0})
  unfolding against_stored
  against_file false d file = ok tt
  against_file true d none = ok tt
  against_file true d (some bytes) = against_stored d (parse_descriptor lib bytes)

  unfoldable pub check_put :
      Option AcceptList → Descriptor → ℕ → Bool → Disk → Result DirectoryError (Unit {0})
  unfolding against_file
  check_put accepted d now reads disk = do
    _ ← check (accepts accepted d.identity) not_accepted
    _ ← check (not (expired d now)) expired_descriptor
    against_file reads d (find (file_for d.identity) disk)

  -- The write to a temporary file that is then renamed.
  unfoldable pub written :
      List ℕ
      → List ℕ
      → Bool
      → Disk
      → Result DirectoryError (Unit {0})
      → Disk × Result DirectoryError (Unit {0})
  written name bytes writes disk (err e) = (disk, err e)
  written name bytes writes disk (ok _) =
      if writes then (put name bytes disk, ok tt) else (disk, err write_failed)

  -- (*Store).Put
  unfoldable pub put_descriptor :
      Option AcceptList
      → Descriptor
      → List ℕ
      → ℕ
      → Bool
      → Bool
      → Disk
      → Disk × Result DirectoryError (Unit {0})
  unfolding written
  put_descriptor accepted d bytes now reads writes disk =
      written (file_for d.identity) bytes writes disk (check_put accepted d now reads disk)
