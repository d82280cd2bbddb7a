-- ===== src/Snapshot/Files.antt =====
-- The files and symlinks that `generate_snapshots` of src/snapshot.rs leaves behind. Errors of the
-- file system are left out; the directories are made anew, and replace the finalized ones.
use rapid_gossip_sync_server.Prelude.{
  ℕ, ◌%◌, ◌^◌, List, [], ◌∷◌, ◌++◌, Option, none, some, Bool, true, false, ◌&&◌, if◌then◌else◌,
  ◌==◌, Result, ok, ◌>>=◌,
}
use rapid_gossip_sync_server.Snapshot.{snapshot_sync_timestamps, Symlink, symlinks}

-- The two versions of the format, which have the suffixes "" and "/v2".
pub data Version : Type 0 where
  v1 v2 : Version

-- `snapshot__calculated-at:…__range:…-scope__previous-sync:….lngossip`, by the numbers in it.
pub data FileName : Type 0 where
  snapshot_file : ℕ → ℕ → ℕ → FileName
  empty_delta : FileName

-- A relative path: how many directories it goes up, the directory of snapshots that it goes down to,
-- and the file.
pub record Target : Type 0 where
  pub ups : ℕ
  pub suffix : Version
  pub file : FileName

-- The files of the directory of snapshots, and the links of that of symlinks by their timestamps.
pub record Directories : Type 0 where
  pub files : List ((Version × FileName) × List ℕ)
  pub links : List ((Version × ℕ) × Target)

abbrev pub same_version : Version → Version → Bool
same_version v1 v1 = true
same_version v2 v2 = true
same_version v1 v2 = false
same_version v2 v1 = false

abbrev pub same_file : FileName → FileName → Bool
same_file empty_delta empty_delta = true
same_file (snapshot_file a b c) (snapshot_file d e f) = a == d && (b == e && c == f)
same_file empty_delta (snapshot_file a b c) = false
same_file (snapshot_file a b c) empty_delta = false

-- `path_to_root` and "../snapshots".
abbrev pub ups_from : Version → ℕ
ups_from v1 = 1
ups_from v2 = 2

-- `snapshots` is what `serialize_delta` makes of `calculate_delta` for a version and a last sync,
-- and `empty_blob` is `serialize_empty_blob` at the reference time.
module _ (snapshots : Version → ℕ → Result (List ℕ)) (empty_blob : Version → List ℕ) where
  unfoldable pub write_snapshots : ℕ → List (ℕ × ℕ) → Result (List ((Version × FileName) × List ℕ))
  write_snapshots reference_timestamp [] = ok []
  write_snapshots reference_timestamp ((current_scope, last_sync) ∷ scopes) = do
    snapshot_v1 ← snapshots v1 (last_sync % 2 ^ 32)
    snapshot_v2 ← snapshots v2 (last_sync % 2 ^ 32)
    rest ← write_snapshots reference_timestamp scopes
    let snapshot_filename = snapshot_file reference_timestamp current_scope last_sync
    ok (((v1, snapshot_filename), snapshot_v1) ∷ ((v2, snapshot_filename), snapshot_v2) ∷ rest)

  unfoldable pub link_in : ℕ → Version → Symlink → (Version × ℕ) × Target
  link_in reference_timestamp version link = (
    (version, link.timestamp),
    record {
      ups = ups_from version;
      suffix = version;
      file = snapshot_file reference_timestamp link.scope link.previous_sync;
    },
  )

  -- A symlink for each suffix.
  unfoldable pub links_of : ℕ → List Symlink → List ((Version × ℕ) × Target)
  links_of reference_timestamp [] = []
  links_of reference_timestamp (link ∷ links) =
      link_in reference_timestamp v1 link
      ∷ link_in reference_timestamp v2 link
      ∷ links_of reference_timestamp links

  -- The dummies of both versions, and the one symlink.
  abbrev pub dummy_files : List ((Version × FileName) × List ℕ)
  dummy_files = ((v1, empty_delta), empty_blob v1) ∷ ((v2, empty_delta), empty_blob v2) ∷ []

  abbrev pub dummy_link : ℕ → (Version × ℕ) × Target
  dummy_link reference_timestamp =
      ((v1, reference_timestamp), record { ups = 1; suffix = v1; file = empty_delta })

  -- At the reference time.
  unfoldable pub generate_at : ℕ → ℕ → List ℕ → Option ℕ → Result Directories
  generate_at reference_timestamp granularity_interval scopes max_symlink_count = do
    written ←
        write_snapshots reference_timestamp (snapshot_sync_timestamps reference_timestamp scopes)
    links ← symlinks reference_timestamp granularity_interval scopes max_symlink_count
    ok (record {
      files = written ++ dummy_files;
      links = dummy_link reference_timestamp ∷ links_of reference_timestamp links;
    })

-- What is served to a client: the target of the link by the client's timestamp, if the link leads
-- to a file.
unfoldable pub find_link : Version → ℕ → List ((Version × ℕ) × Target) → Option Target
find_link version timestamp [] = none
find_link version timestamp (((v, t), target) ∷ links) =
    if same_version v version && t == timestamp
    then some target
    else find_link version timestamp links

unfoldable pub find_file :
    Version → FileName → List ((Version × FileName) × List ℕ) → Option (List ℕ)
find_file version file [] = none
find_file version file (((v, f), content) ∷ files) =
    if same_version v version && same_file f file
    then some content
    else find_file version file files

-- A link in the directory of a version lies as deep as that version's path to the root is long.
unfoldable pub follow : Version → Target → Directories → Option (List ℕ)
follow version target dirs =
    if target.ups == ups_from version then find_file target.suffix target.file dirs.files else none

unfoldable pub request : Version → ℕ → Directories → Option (List ℕ)
request version timestamp dirs = elim (find_link version timestamp dirs.links) [
  | none ↦ none
  | some target ↦ follow version target dirs
]
