-- ===== src/Snapshot/Requests.antt =====
-- What a client gets that asks for the symlink of its timestamp, after `generate_snapshots` of
-- src/snapshot.rs.
use rapid_gossip_sync_server.Snapshot.Timestamps.{symlinks-young}
use rapid_gossip_sync_server.Prelude.{
  none, arith, ℕ, ◌-◌, ◌%◌, ◌^◌, ◌≤◌, ◌<◌, List, [], ◌∷◌, ◌++◌, All, Option, some, true, false,
  Bool-cases, ◌==◌, ==_iff, Result, ok, ◌≡◌, refl, ◌∙◌, ◌⊎◌, inl, inr,
}
use rapid_gossip_sync_server.Lookup.Updates.{contains_id}
use rapid_gossip_sync_server.Snapshot.{u64_max, snapshot_sync_timestamps, Symlink}
use rapid_gossip_sync_server.Snapshot.Scopes.{AreScopes}
use rapid_gossip_sync_server.Snapshot.Symlinks.{Covers, symlinks-Covers}
use rapid_gossip_sync_server.Snapshot.Files.{
  Version, v1, v2, FileName, snapshot_file, empty_delta, Target, Directories, same_file, ups_from,
  write_snapshots, link_in, links_of, dummy_files, dummy_link, generate_at, find_file, follow,
  find_link, request,
}

module _ (snapshots : Version → ℕ → Result (List ℕ)) (empty_blob : Version → List ℕ) where
  abbrev Files : Type 0
  Files = List ((Version × FileName) × List ℕ)

  -- Every snapshot can be made.
  abbrev pub IsTotal : Type 0
  IsTotal =
      (version : Version) (last_sync : ℕ)
      → (content : List ℕ) × (snapshots version last_sync ≡ ok content)

  -- The files hold the snapshots of the scopes, and no dummy.
  record Holds (reference : ℕ) (scopes : List ℕ) (files : Files) : Type 0 where
    holds :
        (version : Version) (scope : ℕ)
        → contains_id scopes scope ≡ true
        → (content : List ℕ) × ((rest : Files)
            → find_file version (snapshot_file reference scope (reference - scope)) (files ++ rest)
              ≡ some content)
          × (snapshots version ((reference - scope) % 2 ^ 32) ≡ ok content)
    skips :
        (version : Version) (rest : Files)
        → find_file version empty_delta (files ++ rest) ≡ find_file version empty_delta rest

  same_self : (n : ℕ) → (n == n) ≡ true
  same_self n = (==_iff n n).1 refl

  abbrev pick : Version → List ℕ → List ℕ → List ℕ
  pick v1 c1 c2 = c1
  pick v2 c1 c2 = c2

  find_first :
      (version : Version) (file : FileName) (c1 c2 : List ℕ) (files : Files)
      → same_file file file ≡ true
      → find_file version file (((v1, file), c1) ∷ ((v2, file), c2) ∷ files)
        ≡ some (pick version c1 c2)
  unfolding find_file
  find_first v1 file c1 c2 files same = rw same refl
  find_first v2 file c1 c2 files same = rw same refl

  find_later :
      (version : Version) (file other : FileName) (c1 c2 : List ℕ) (files : Files)
      → same_file other file ≡ false
      → find_file version file (((v1, other), c1) ∷ ((v2, other), c2) ∷ files)
        ≡ find_file version file files
  unfolding find_file
  find_later v1 file other c1 c2 files differ = rw differ refl
  find_later v2 file other c1 c2 files differ = rw differ refl

  -- The files of one scope more.
  cons-Holds :
      (reference first : ℕ) (scopes : List ℕ) (c1 c2 : List ℕ) (files : Files)
      → snapshots v1 ((reference - first) % 2 ^ 32) ≡ ok c1
      → snapshots v2 ((reference - first) % 2 ^ 32) ≡ ok c2
      → Holds reference scopes files
      → let name = snapshot_file reference first (reference - first) in
        Holds reference (first ∷ scopes) (((v1, name), c1) ∷ ((v2, name), c2) ∷ files)
  cons-Holds reference first scopes c1 c2 files one two h = record {
    holds = λ version scope listed. elim (Bool-cases (first == scope)) [
      | inl mine ↦ rw (← (==_iff first scope).0 mine) (
        pick version c1 c2,
        λ rest. find_first version name c1 c2 (files ++ rest) same_name,
        made version,
      )
      | inr other ↦
          let (content, finds, makes) = h.holds version scope (rw other at listed) in
          (
            content,
            λ rest.
                find_later version (snapshot_file reference scope (reference - scope)) name c1 c2
                  (files ++ rest) (rw (same_self reference, other) refl)
                ∙ finds rest,
            makes,
          )
    ];
    skips = λ version rest.
        find_later version empty_delta name c1 c2 (files ++ rest) refl ∙ h.skips version rest;
  }
    where
      name : FileName
      name = snapshot_file reference first (reference - first)

      same_name : same_file name name ≡ true
      same_name = rw (same_self reference, same_self first, same_self (reference - first)) refl

      made :
          (version : Version)
          → snapshots version ((reference - first) % 2 ^ 32) ≡ ok (pick version c1 c2)
      made v1 = one
      made v2 = two

  write_snapshots-Holds :
      (reference : ℕ) (scopes : List ℕ)
      → IsTotal
      → (files : Files) × (write_snapshots snapshots empty_blob reference
            (snapshot_sync_timestamps reference scopes)
          ≡ ok files)
        × Holds reference scopes files
  unfolding write_snapshots snapshot_sync_timestamps
  write_snapshots-Holds reference [] total =
      ([], refl, record { holds = λ version scope h. cc; skips = λ version rest. refl })
  write_snapshots-Holds reference (first ∷ scopes) total =
      let (c1, one) = total v1 ((reference - first) % 2 ^ 32) in
      let (c2, two) = total v2 ((reference - first) % 2 ^ 32) in
      let (files, writes, h) = write_snapshots-Holds reference scopes total in
      let name = snapshot_file reference first (reference - first) in
      (
        ((v1, name), c1) ∷ ((v2, name), c2) ∷ files,
        rw (write_snapshots, one, two, writes) refl,
        cons-Holds reference first scopes c1 c2 files one two h,
      )

  -- A link leads to a file. Either it is the dummy of version 1 at the reference time, or the file
  -- is a snapshot of the link's version, made for a last sync that is not later than the link's
  -- timestamp.
  pub record LeadsTo (reference : ℕ) (dirs : Directories) (entry : (Version × ℕ) × Target)
      : Type 0 where
    pub content : List ℕ
    pub leads : follow entry.0.0 entry.1 dirs ≡ some content
    pub made :
        ((entry.0 ≡ (v1, reference)) × (content ≡ empty_blob v1))
        ⊎ ((last_sync : ℕ) × (last_sync ≤ entry.0.1)
            × (snapshots entry.0.0 (last_sync % 2 ^ 32) ≡ ok content))

  snapshot-LeadsTo :
      (reference : ℕ) (scopes : List ℕ) (written : Files) (links : List ((Version × ℕ) × Target))
      (version : Version) (timestamp scope last_sync : ℕ)
      → Holds reference scopes written
      → contains_id scopes scope ≡ true
      → last_sync ≡ reference - scope
      → last_sync ≤ timestamp
      → LeadsTo reference
          (record { files = written ++ dummy_files snapshots empty_blob; links = links })
          (
            (version, timestamp),
            record {
              ups = ups_from version;
              suffix = version;
              file = snapshot_file reference scope last_sync;
            },
          )
  unfolding follow
  snapshot-LeadsTo reference scopes written links version timestamp scope last_sync h listed same
        early =
      let (content, finds, makes) = h.holds version scope listed in
      record {
        content = content;
        leads = rw (same_self (ups_from version), same) (finds (dummy_files snapshots empty_blob));
        made = inr (last_sync, early, rw same makes);
      }

  links-LeadsTo :
      (reference : ℕ) (scopes : List ℕ) (written : Files) (all : List ((Version × ℕ) × Target))
      (links : List Symlink)
      → Holds reference scopes written
      → All (Covers reference scopes) links
      → All
          (LeadsTo reference
            (record { files = written ++ dummy_files snapshots empty_blob; links = all }))
          (links_of snapshots empty_blob reference links)
  unfolding links_of link_in
  links-LeadsTo reference scopes written all [] h covers = tt
  links-LeadsTo reference scopes written all (link ∷ links) h (c, covers) =
      let lead = λ (version : Version).
        snapshot-LeadsTo reference scopes written all version link.timestamp link.scope
          link.previous_sync h c.generated c.calculated_from c.covers in
      (lead v1, (lead v2, links-LeadsTo reference scopes written all links h covers))

  find_dummy :
      (reference : ℕ) (links : List ((Version × ℕ) × Target))
      → find_link v1 reference (dummy_link snapshots empty_blob reference ∷ links)
        ≡ some (dummy_link snapshots empty_blob reference).1
  unfolding find_link
  find_dummy reference links = rw (same_self reference) refl

  -- No link of version 2 has the reference time, if every symlink's timestamp is before it.
  find_link-young :
      (reference : ℕ) (links : List Symlink)
      → All (λ link. link.timestamp < reference) links
      → find_link v2 reference (links_of snapshots empty_blob reference links) ≡ none
  unfolding find_link links_of link_in
  find_link-young reference [] young = refl
  find_link-young reference (link ∷ links) young =
      ground (arith, young.0, find_link-young reference links young.1)

  dummy_leads :
      (reference : ℕ) (scopes : List ℕ) (written : Files) (links : List ((Version × ℕ) × Target))
      → Holds reference scopes written
      → follow v1
          (dummy_link snapshots empty_blob reference).1
          (record { files = written ++ dummy_files snapshots empty_blob; links = links })
        ≡ some (empty_blob v1)
  unfolding follow find_file
  dummy_leads reference scopes written links h = h.skips v1 (dummy_files snapshots empty_blob)

  -- From the scopes of the server, with a positive granularity, at a reference time from 2022 on
  -- that fits 64 bits, and if every snapshot can be calculated and serialized: the generation does
  -- not panic, and each symlink of either version leads to a file. That file is a snapshot of the
  -- same version for a last sync that is not later than the timestamp by which the symlink is
  -- named, or, for version 1 at the reference time, the empty delta. A client at the reference
  -- time is served the empty delta of version 1, and nothing if it asks for version 2.
  pub generate_at-LeadsTo :
      (interval reference granularity : ℕ) (scopes : List ℕ) (max_symlink_count : Option ℕ)
      → AreScopes interval scopes
      → 1640995200 ≤ reference
      → reference ≤ u64_max
      → 0 < granularity
      → IsTotal
      → (dirs : Directories) × (generate_at snapshots empty_blob reference granularity scopes
            max_symlink_count
          ≡ ok dirs)
        × All (LeadsTo reference dirs) dirs.links
        × (request v1 reference dirs ≡ some (empty_blob v1))
        × (request v2 reference dirs ≡ none)
  unfolding generate_at request find_link
  generate_at-LeadsTo interval reference granularity scopes most h late small positive total =
      let (written, writes, holds) = write_snapshots-Holds reference scopes total in
      let (links, makes, covers, count) =
        symlinks-Covers interval reference granularity scopes most h late small positive in
      let dirs : Directories = record {
        files = written ++ dummy_files snapshots empty_blob;
        links =
            dummy_link snapshots empty_blob reference
            ∷ links_of snapshots empty_blob reference links;
      } in
      (
        dirs,
        rw (generate_at, writes, makes) refl,
        (
          record {
            content = empty_blob v1;
            leads = dummy_leads reference scopes written dirs.links holds;
            made = inl (refl, refl);
          },
          links-LeadsTo reference scopes written dirs.links links holds covers,
        ),
        rw (request, find_dummy reference (links_of snapshots empty_blob reference links))
            (dummy_leads reference scopes written dirs.links holds),
        rw
            (
              request,
              find_link-young reference links (
                  symlinks-young reference granularity scopes most links (omega (arith, late))
                    positive makes),
            )
            refl,
      )
