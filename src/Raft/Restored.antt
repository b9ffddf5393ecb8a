-- ===== src/Raft/Restored.antt =====
-- internal/raft/fsm.go: a restart from a snapshot, a snapshot that is written late, and a restart
-- without one.
use jario.Base.{ℕ, ◌≡◌, refl, sym, ap, ◌∙◌, some, arith, Option-cases, inl, inr}
use jario.Text.{Text, text_eq_inst}
use jario.Text.Laws.{text_eq_refl}
use jario.Outcome.{Outcome, ok, Codec, RoundTrips}
use jario.GoMap.{lookup}
use jario.BucketDb.{Bolt, BucketMeta}
use jario.MetaStore.Versions.{ObjectMeta, push_version}
use jario.MetaStore.Ops.{MetaStore, Objects, is_cached, find_key, new_meta_store, or_new}
use jario.MetaStore.Lookups.{Opened, versions_at, put_object_lem}
use jario.MetaStore.Snapshot.{AreMaps, restore-eq, snapshot}
use jario.MetaStore.Rebuilt.{merge_objects-nil}
use jario.Raft.Fsm.{put_op, apply_op}
use jario.Raft.Replicas.{apply_op-put}
use jario.Raft.Recovery.{Alike, apply_op-Alike, apply_op-AreMaps, apply_op-knows}
use jario.Raft.Snapshots.{fsm_restore}

module _ {Db : Type 0} (json : Codec ObjectMeta) (n : MetaStore Db) (b k text : Text)
    (meta : ObjectMeta) (now : ℕ) (o : Opened n b) (read : json.unmarshal text ≡ ok meta) where
  find_key-apply_put :
      find_key (apply_op json n (put_op b k text) now).1 b k
      ≡ some (push_version (versions_at n b k) meta)
  find_key-apply_put =
      rw (apply_op-put json n b k text meta now read)
        (ground (arith, (put_object_lem n b k meta o).1 b k, text_eq_refl b, text_eq_refl k))

  apply_put-Opened : Opened (apply_op json n (put_op b k text) now).1 b
  unfolding find_key
  apply_put-Opened =
      elim (Option-cases (lookup b (apply_op json n (put_op b k text) now).1.objects)) [
        | inl missing ↦ absurd (ground (arith, find_key-apply_put, missing))
        | inr (objs, found) ↦ (apply_op-knows json n (put_op b k text) now b ∙ o.0, objs, found)
      ]

module _ (bolt : Bolt) (bucket_json : Codec BucketMeta) (objects_json : Codec Objects) where
  -- The store of a node that has restored a snapshot when it started.
  abbrev pub restored : bolt.Db → Text → MetaStore bolt.Db
  restored db text =
      (fsm_restore bolt bucket_json objects_json (new_meta_store bolt bucket_json db) text).1

  restored-eq :
      (db : bolt.Db) (text : Text) (saved : Objects)
      → objects_json.unmarshal text ≡ ok saved
      → AreMaps saved
      → restored db text ≡ record (new_meta_store bolt bucket_json db) { objects = saved }
  unfolding fsm_restore new_meta_store
  restored-eq db text saved read maps =
      ap (λ (r : Outcome (Unit {0}) × MetaStore bolt.Db). r.1)
        (restore-eq bolt bucket_json objects_json (new_meta_store bolt bucket_json db) saved text
          read)
      ∙ ap (λ (o : Objects). record (new_meta_store bolt bucket_json db) { objects = o })
          (merge_objects-nil saved maps)

  -- If a put is applied after a snapshot was taken and before it is written, a restart from that
  -- snapshot applies the put again: the key had one new version on the live node and has two after
  -- the restart. The bucket is open, the metadata is read, the store has one entry a key, the
  -- database lists the buckets that the node knows, and the snapshot is read back from JSON.
  pub persist_late :
      (json : Codec ObjectMeta) (n : MetaStore bolt.Db) (db : bolt.Db) (b k meta_text text : Text)
      (meta : ObjectMeta) (now later : ℕ)
      → Opened n b
      → json.unmarshal meta_text ≡ ok meta
      → AreMaps n.objects
      → ((name : Text) → is_cached (new_meta_store bolt bucket_json db) name ≡ is_cached n name)
      → snapshot objects_json (apply_op json n (put_op b k meta_text) now).1 ≡ ok text
      → RoundTrips objects_json (apply_op json n (put_op b k meta_text) now).1.objects
      → (find_key (apply_op json n (put_op b k meta_text) now).1 b k
          ≡ some (push_version (versions_at n b k) meta))
        × (find_key (apply_op json (restored db text) (put_op b k meta_text) later).1 b k
            ≡ some (push_version (push_version (versions_at n b k) meta) meta))
  unfolding snapshot find_key
  persist_late json n db b k meta_text text meta now later o read maps names written trips =
      let put = put_op b k meta_text in
      let live = (apply_op json n put now).1 in
      let maps' = apply_op-AreMaps n maps json put now in
      let once = find_key-apply_put json n b k meta_text meta now o read in
      let o' = apply_put-Opened json n b k meta_text meta now o read in
      let twice = find_key-apply_put json live b k meta_text meta later o' read in
      let here : Alike (restored db text) live =
        rw (restored-eq db text live.objects (trips text written) maps') (record {
          knows = λ name. names name ∙ sym (apply_op-knows json n put now name);
          holds = refl;
        }) in
      let again = apply_op-Alike json (restored db text) live put later here in
      (
        once,
        ap (λ (objects : Objects). find_key (record live { objects = objects }) b k) again.holds
            ∙ (twice ∙ ap (λ vst. some (push_version (or_new vst) meta)) once),
      )
