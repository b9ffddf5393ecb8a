-- ===== src/Server/Wiring.antt =====
-- cmd/server/main.go: what holds of a server that has started.
use jario.Base.{
  inl, inr, ℕ, suc, zero, ◌+◌, ◌++◌, ◌≡◌, ◌≢◌, Bool, true, false, Option-cases, [], some, arith,
}
use jario.Text.{Text, codes, text_eq_iff, text_eq_inst}
use jario.Outcome.{ok, Outcome-cases}
use jario.MetaStore.Ops.{MetaStore, set_region, new_meta_store}
use jario.Raft.Node.{RaftNode, new_node, bootstrap, add_voter, rafter}
use jario.Store.State.{Store}
use jario.BucketDb.{open_bucket_db}
use jario.Store.Open.{open_meta_store, new_with_meta}
use jario.Api.Http.{Platform}
use jario.Api.Join.{request_join}
use jario.Config.{Config}
use jario.Server.{Server, Machine, ask_join, join_loop, open_parts, bootstrap_if, join_if, start}

module _ (platform : Platform) (machine : Machine platform) (cfg : Config) where
  join_loop-some :
      (fuel k j : ℕ)
      → join_loop platform machine cfg fuel k ≡ some j
      → ask_join platform machine cfg j ≡ ok tt
  unfolding join_loop
  join_loop-some zero k j h = absurd (cc)
  join_loop-some (suc fuel) k j h = elim (Outcome-cases (ask_join platform machine cfg k)) [
    | inl (_, done) ↦ ground (arith, done)
    | inr (inl (e, failed)) ↦ join_loop-some fuel (k + 1) j (ground (arith, failed))
    | inr (inr bad) ↦ absurd (ground (arith, bad))
  ]

  join_if-some :
      (fuel k : ℕ)
      → join_if platform machine cfg fuel ≡ some k
      → cfg.join ≢ []
      → request_join machine.marshal_join (machine.http_post k) cfg.join cfg.node_id cfg.raft_addr
        ≡ ok tt
  unfolding join_if ask_join
  join_if-some fuel k h ne = join_loop-some fuel 0 k (ground (arith, h, text_eq_iff cfg.join []))

module _ (platform : Platform) (machine : Machine platform) where
  -- A new store for these settings, which writes through the Raft node.
  abbrev pub IsWired : Config → Store platform.bolt.Db → Type 0
  IsWired cfg st =
      (st.raft ≡ some (rafter machine.raft))
      × (st.data_dir ≡ cfg.data_dir)
      × (st.meta.region ≡ cfg.region)
      × (st.meta.objects ≡ [])
      × (st.uploads ≡ [])

  open_meta_store-ok :
      (data_dir : Text) (meta : MetaStore platform.bolt.Db)
      → open_meta_store platform.bolt platform.bucket_json machine.file data_dir ≡ ok meta
      → meta.objects ≡ []
  unfolding open_meta_store new_meta_store
  open_meta_store-ok data_dir meta h = elim (Outcome-cases (open_bucket_db machine.file data_dir)) [
    | inl (db, opened) ↦ ground (arith, opened)
    | inr (inl (e, failed)) ↦ absurd (ground (arith, failed))
    | inr (inr failed) ↦ absurd (ground (arith, failed))
  ]

  new_with_meta-ok :
      (data_dir : Text) (meta : MetaStore platform.bolt.Db) (st : Store platform.bolt.Db)
      → new_with_meta machine.mkdir data_dir meta machine.files ≡ ok st
      → (st.data_dir ≡ data_dir)
        × (st.meta.region ≡ meta.region)
        × (st.meta.objects ≡ meta.objects)
        × (st.uploads ≡ [])
  unfolding new_with_meta
  new_with_meta-ok data_dir meta st h =
      elim (Outcome-cases (machine.mkdir (data_dir ++ codes "/blobs"))) [
        | inl (_, made) ↦
            (ground (arith, made), ground (arith, made), ground (arith, made), ground (arith, made))
        | inr (inl (e, failed)) ↦ absurd (ground (arith, failed))
        | inr (inr failed) ↦ absurd (ground (arith, failed))
      ]

  open_parts-IsWired :
      (cfg : Config) (st : Store platform.bolt.Db) (node : RaftNode)
      → open_parts platform machine cfg ≡ ok (st, node)
      → IsWired cfg st
  unfolding open_parts
  open_parts-IsWired cfg st node h =
      elim (Outcome-cases
        (open_meta_store platform.bolt platform.bucket_json machine.file cfg.data_dir)) [
          | inr (inl (e, failed)) ↦ absurd (ground (arith, failed))
          | inr (inr failed) ↦ absurd (ground (arith, failed))
          | inl (meta, opened) ↦
              elim (Outcome-cases (
                new_with_meta machine.mkdir cfg.data_dir (set_region meta cfg.region)
                  machine.files)) [
                    | inr (inl (e, failed)) ↦ absurd (ground (arith, opened, failed))
                    | inr (inr failed) ↦ absurd (ground (arith, opened, failed))
                    | inl (st', made) ↦
                        elim (Outcome-cases (
                          new_node machine.raft cfg.node_id (cfg.data_dir ++ codes "/raft")
                            cfg.raft_addr)) [
                              | inr (inl (e, failed)) ↦
                                  absurd (ground (arith, opened, made, failed))
                              | inr (inr failed) ↦ absurd (ground (arith, opened, made, failed))
                              | inl (node', ready) ↦
                                  let same = open_meta_store-ok cfg.data_dir meta opened in
                                  let (place, region, objects, uploads) =
                                    new_with_meta-ok cfg.data_dir (set_region meta cfg.region) st'
                                      made in
                                  (
                                    ground (arith, opened, made, ready),
                                    ground (arith, opened, made, ready, place),
                                    ground (arith, opened, made, ready, region),
                                    ground (arith, opened, made, ready, objects, same),
                                    ground (arith, opened, made, ready, uploads),
                                  )
                            ]
                  ]
        ]

  bootstrap_if-ok :
      (wanted : Bool) (node : RaftNode)
      → bootstrap_if platform machine wanted node ≡ ok tt
      → wanted ≡ true
      → bootstrap machine.raft node ≡ ok tt
  unfolding bootstrap_if
  bootstrap_if-ok true node up w = up
  bootstrap_if-ok false node up w = absurd (cc)

  -- A server that starts has a store that writes through its Raft node, in the data directory and
  -- the region of the configuration, without objects and uploads yet, and a handler with the keys
  -- of the configuration that admits nodes by that Raft node; if it was told to bootstrap, that
  -- has succeeded, and if it was told to join, a request to that address to admit its node ID at
  -- its Raft address has succeeded.
  pub start-IsWired :
      (fuel : ℕ) (cfg : Config) (s : Server platform.bolt.Db)
      → start platform machine fuel cfg ≡ ok (some s)
      → IsWired cfg s.store
        × (s.handler.access_key ≡ cfg.access_key)
        × (s.handler.secret_key ≡ cfg.secret_key)
        × (s.handler.joiner ≡ some (add_voter machine.raft))
        × (cfg.bootstrap ≡ true → bootstrap machine.raft s.node ≡ ok tt)
        × (cfg.join ≢ []
            → (k : ℕ) × (request_join machine.marshal_join
                  (machine.http_post k)
                  cfg.join
                  cfg.node_id
                  cfg.raft_addr
                ≡ ok tt))
  unfolding start
  start-IsWired fuel cfg s h = elim (Outcome-cases (open_parts platform machine cfg)) [
    | inr (inl (e, failed)) ↦ absurd (ground (arith, failed))
    | inr (inr failed) ↦ absurd (ground (arith, failed))
    | inl ((st, node), opened) ↦
        elim (Outcome-cases (bootstrap_if platform machine cfg.bootstrap node)) [
          | inr (inl (e, failed)) ↦ absurd (ground (arith, opened, failed))
          | inr (inr failed) ↦ absurd (ground (arith, opened, failed))
          | inl (_, up) ↦ elim (Option-cases (join_if platform machine cfg fuel)) [
            | inl missing ↦ absurd (ground (arith, opened, up, missing))
            | inr (k, joined) ↦ elim (Outcome-cases (machine.parse_duration cfg.upload_max_age)) [
              | inr (inl (e, failed)) ↦ absurd (ground (arith, opened, up, joined, failed))
              | inr (inr failed) ↦ absurd (ground (arith, opened, up, joined, failed))
              | inl (max_age, parsed) ↦
                  let (raft, place, region, objects, uploads) =
                    open_parts-IsWired cfg st node opened in
                  (
                    (
                      ground (arith, opened, up, parsed, joined, raft),
                      ground (arith, opened, up, parsed, joined, place),
                      ground (arith, opened, up, parsed, joined, region),
                      ground (arith, opened, up, parsed, joined, objects),
                      ground (arith, opened, up, parsed, joined, uploads),
                    ),
                    ground (arith, opened, up, parsed, joined),
                    ground (arith, opened, up, parsed, joined),
                    ground (arith, opened, up, parsed, joined),
                    λ first. ground (
                      arith,
                      opened,
                      up,
                      parsed,
                      joined,
                      bootstrap_if-ok cfg.bootstrap node up first,
                    ),
                    λ leader. (k, join_if-some platform machine cfg fuel k joined leader),
                  )
            ]
          ]
        ]
  ]
