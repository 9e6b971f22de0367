-- ===== src/Local/Federations/Laws.antt =====
-- pkg/plugin/local/local.go: what the federation methods promise, and what they leave to bindings.
use cofidectl.Common.{
  ◌≡◌, ◌≢◌, ◌↔◌, Bool-cases, refl, sym, ◌∙◌, ap, inl, inr, String, ◌==◌, Bool, true, false, some,
  List, [], ◌∷◌, ◌++◌, arith, eq_iff, get_text, ne_of_test, eq_of_test, is_some, find_first, filter,
  any, any_last, remove_first,
}
use cofidectl.Common.Errors.{Result, ok}
use cofidectl.Common.Keys.{All, Unique, All-map, All-find_first}
use cofidectl.Config.{Config, get_trust_zone_by_id}
use cofidectl.Config.Messages.{ApBinding, Federation, ApBindingFederation}
use cofidectl.Config.WellFormed.{WellFormed, federation_pair}
use cofidectl.Config.Loader.{Loader}
use cofidectl.Proto.{ProtoLib, IsProtoLib, clone_federation_lem}
use cofidectl.Local.{LocalDataSource, clone_all_lem}
use cofidectl.Local.Bindings.{check_federations, federates_with}
use cofidectl.Local.Bindings.Laws.{MayFederate, check_federations_iff}
use cofidectl.Local.Federations.Invariant.{any_listed}
use cofidectl.Local.Federations.{
  add_federation, destroy_federation, federation_has_id, federation_joins,
}

-- What `AddFederation` demands of the configuration and of the federation.
pub record CanFederate (c : Config) (f : Federation) : Type 0 where
  pub no_id : get_text f.id ≡ ""
  pub zone : is_some (get_trust_zone_by_id c (get_text f.trust_zone_id)) ≡ true
  pub remote_zone : is_some (get_trust_zone_by_id c (get_text f.remote_trust_zone_id)) ≡ true
  pub apart : get_text f.trust_zone_id ≢ get_text f.remote_trust_zone_id
  pub unjoined :
      federates_with c (get_text f.trust_zone_id) (get_text f.remote_trust_zone_id) ≡ false

abbrev with_federation : Config → String → Federation → Config
with_federation c id f = record c { federations = c.federations ++ record f { id = some id } ∷ [] }

module _ {S : Type 0} (lib : ProtoLib) (laws : IsProtoLib lib) (loader : Loader S) where
  add_federation_checked :
      (id : String) (f : Federation) (lds : LocalDataSource S)
      → (add_federation lib loader (ok id) f lds).0 ≡ ok (record f { id = some id })
      → CanFederate lds.config f
  unfolding add_federation federates_with
  add_federation_checked id f lds h = ground (
    arith,
    clone_federation_lem lib laws f,
    clone_all_lem _ (clone_federation_lem lib laws)
        (filter (λ g. get_text g.trust_zone_id == get_text f.trust_zone_id) lds.config.federations),
    any_listed (get_text f.trust_zone_id) (get_text f.remote_trust_zone_id) lds.config.federations,
    eq_iff (get_text f.id) "",
    eq_iff (get_text f.trust_zone_id) (get_text f.remote_trust_zone_id),
  )

  add_federation_accepts :
      (id : String) (f : Federation) (lds : LocalDataSource S) (s : S)
      → loader.write (with_federation lds.config id f) lds.store ≡ (ok tt, s)
      → CanFederate lds.config f
      → (add_federation lib loader (ok id) f lds).0 ≡ ok (record f { id = some id })
  unfolding add_federation federates_with
  add_federation_accepts id f lds s wrote can = ground (
    arith,
    clone_federation_lem lib laws f,
    clone_federation_lem lib laws (record f { id = some id }),
    clone_all_lem _ (clone_federation_lem lib laws)
        (filter (λ g. get_text g.trust_zone_id == get_text f.trust_zone_id) lds.config.federations),
    any_listed (get_text f.trust_zone_id) (get_text f.remote_trust_zone_id) lds.config.federations,
    eq_iff (get_text f.id) "",
    eq_iff (get_text f.trust_zone_id) (get_text f.remote_trust_zone_id),
  )

  -- Where the configuration can be written, a federation is added exactly when it comes without an
  -- id, both trust zones exist and differ, and the first does not federate with the second yet.
  pub add_federation_iff :
      (id : String) (f : Federation) (lds : LocalDataSource S) (s : S)
      → loader.write (with_federation lds.config id f) lds.store ≡ (ok tt, s)
      → ((add_federation lib loader (ok id) f lds).0 ≡ ok (record f { id = some id }))
        ↔ CanFederate lds.config f
  add_federation_iff id f lds s wrote =
      (add_federation_checked id f lds, add_federation_accepts id f lds s wrote)

  federated :
      (uid : Result String) (f new : Federation) (lds : LocalDataSource S)
      → (add_federation lib loader uid f lds).0 ≡ ok new
      → (id : String) × (uid ≡ ok id)
        × ((get_text f.remote_trust_zone_id == get_text f.trust_zone_id) ≡ false)
        × ((add_federation lib loader uid f lds).1.config ≡ with_federation lds.config id f)
  unfolding add_federation
  federated uid f new lds h = ground (
    arith,
    clone_federation_lem lib laws f,
    clone_all_lem _ (clone_federation_lem lib laws)
        (filter (λ g. get_text g.trust_zone_id == get_text f.trust_zone_id) lds.config.federations),
    eq_iff (get_text f.trust_zone_id) (get_text f.remote_trust_zone_id),
    eq_iff (get_text f.remote_trust_zone_id) (get_text f.trust_zone_id),
  )

  -- Once a federation was added, a binding in its trust zone may federate with the remote one.
  add_federation_enables :
      (uid : Result String) (f new : Federation) (lds : LocalDataSource S)
      → (add_federation lib loader uid f lds).0 ≡ ok new
      → MayFederate
          (add_federation lib loader uid f lds).1.config
          (get_text f.trust_zone_id)
          (record { trust_zone_id = f.remote_trust_zone_id })
  unfolding federates_with
  add_federation_enables uid f new lds h =
      let (id, made, apart, changed) = federated uid f new lds h in
      let joins : federation_joins (get_text f.trust_zone_id) (get_text f.remote_trust_zone_id)
            (record f { id = some id })
          ≡ true =
        ground (
          arith,
          eq_iff (get_text f.trust_zone_id) (get_text f.trust_zone_id),
          eq_iff (get_text f.remote_trust_zone_id) (get_text f.remote_trust_zone_id),
        ) in
      (ne_of_test _ _ apart, rw changed (any_last _ lds.config.federations _ joins))

joins_pair :
    (local remote : String) (x : Federation)
    → federation_joins local remote x ≡ true
    → federation_pair x ≡ (local, remote)
joins_pair local remote x h = ground (
  arith,
  eq_iff (get_text x.trust_zone_id) local,
  eq_iff (get_text x.remote_trust_zone_id) remote,
)

pair_joins :
    (local remote : String) (x : Federation)
    → federation_pair x ≢ (local, remote)
    → federation_joins local remote x ≡ false
pair_joins local remote x h = elim (Bool-cases (federation_joins local remote x)) [
  | inl t ↦ absurd (h (joins_pair local remote x t))
  | inr e ↦ e
]

none_joins :
    (local remote : String) (fs : List Federation)
    → All (λ x. federation_pair x ≢ (local, remote)) fs
    → any (federation_joins local remote) fs ≡ false
unfolding any
none_joins local remote [] h = refl
none_joins local remote (x ∷ fs) h =
    rw (pair_joins local remote x h.0) (none_joins local remote fs h.1)

-- With distinct pairs, removing the federation that joins two trust zones leaves none that does.
unfederated :
    (id local remote : String) (f : Federation) (fs : List Federation)
    → Unique federation_pair fs
    → find_first (federation_has_id id) fs ≡ some f
    → federation_pair f ≡ (local, remote)
    → any (federation_joins local remote) (remove_first (federation_has_id id) fs) ≡ false
unfolding any find_first remove_first
unfederated id local remote f [] u found joins = refl
unfederated id local remote f (g ∷ fs) u found joins = elim (Bool-cases (federation_has_id id g)) [
  | inl t ↦
      let same : some g ≡ some f = rw t at found in
      let pair : federation_pair g ≡ (local, remote) = cc in
      rw t (none_joins local remote fs (All-map _ (λ y n q. n (pair ∙ sym q)) fs u.0))
  | inr t ↦
      let later : find_first (federation_has_id id) fs ≡ some f = rw t at found in
      let apart = All-find_first _ (federation_has_id id) fs f u.0 later in
      rw (t, pair_joins local remote g (λ q. apart (q ∙ sym joins)))
        (unfederated id local remote f fs u.1 later joins)
]

abbrev pub federates_to : String → ApBindingFederation → Bool
federates_to remote x = get_text x.trust_zone_id == remote

-- Where each trust zone of a list may be federated with, one that is in the list is federated with.
federates_to-MayFederate :
    (c : Config) (local remote : String) (xs : List ApBindingFederation)
    → any (federates_to remote) xs ≡ true
    → All (MayFederate c local) xs
    → federates_with c local remote ≡ true
unfolding any
federates_to-MayFederate c local remote [] h may = cc
federates_to-MayFederate c local remote (x ∷ xs) h may = elim (Bool-cases (federates_to remote x)) [
  | inl t ↦ let same = eq_of_test (get_text x.trust_zone_id) remote t in rw same at may.0.1
  | inr t ↦ federates_to-MayFederate c local remote xs (rw t at h) may.1
]

module _ {S : Type 0} (lib : ProtoLib) (laws : IsProtoLib lib) (loader : Loader S) where
  removed :
      (id : String) (lds : LocalDataSource S)
      → (destroy_federation lib loader id lds).0 ≡ ok tt
      → (destroy_federation lib loader id lds).1.config ≡ record lds.config {
        federations = remove_first (federation_has_id id) lds.config.federations;
      }
  unfolding destroy_federation
  removed id lds h = ground arith

  -- From a well-formed configuration, a federation that was destroyed has left every binding as it was.
  -- The federations of a binding in its trust zone that has its remote trust zone anywhere among them
  -- would be refused if the binding were added or updated now.
  pub destroy_federation_dangles :
      (id : String) (f : Federation) (b : ApBinding) (lds : LocalDataSource S)
      → WellFormed lds.config
      → find_first (federation_has_id id) lds.config.federations ≡ some f
      → get_text b.trust_zone_id ≡ get_text f.trust_zone_id
      → any (federates_to (get_text f.remote_trust_zone_id)) b.federations ≡ true
      → (destroy_federation lib loader id lds).0 ≡ ok tt
      → let after = (destroy_federation lib loader id lds).1.config in
        (after.ap_bindings ≡ lds.config.ap_bindings)
        × (check_federations after (get_text b.id) (get_text b.trust_zone_id) b.federations ≢ ok tt)
  unfolding federates_with
  destroy_federation_dangles id f b lds w found zone remotes h =
      let changed = removed id lds h in
      let after = (destroy_federation lib loader id lds).1.config in
      let local = get_text b.trust_zone_id in
      let remote = get_text f.remote_trust_zone_id in
      let gone =
        unfederated id (get_text f.trust_zone_id) remote f lds.config.federations
          w.federations.pairs found refl in
      (
        ap (λ (c : Config). c.ap_bindings) changed,
        λ fine.
            let may = (check_federations_iff after (get_text b.id) local b.federations).0 fine in
            let joined = federates_to-MayFederate after local remote b.federations remotes may in
            let still = rw (zone, changed) at joined in cc (gone, still),
      )
