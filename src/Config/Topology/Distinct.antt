-- ===== src/Config/Topology/Distinct.antt =====
-- pkg/config/topology.go: a Fleet passes exactly where no two of its Hosts collide.
use picolet.Prelude.{
  String, ◌≡◌, refl, ap, ◌∙◌, Bool, true, false, not, ◌&&◌, ◌||◌, Option, none, some, List, [], ◌∷◌,
  arith, any, eqb, length, is_some, sort,
}
use picolet.GoMap.{GoMap, keys}
use picolet.Config.Host.{HostConfig}
use picolet.Config.Topology.{
  Collision, same_hostname, same_user, same_port, HostDir, share_hostname, share_user, share_port,
  first_sharing, noted, collision, collisions, hosts_of, validate_topology,
}

-- No two of the Hosts share what `share` compares.
unfoldable pub are_apart : (HostConfig → HostConfig → Bool) → List HostDir → Bool
are_apart share [] = true
are_apart share (h ∷ rest) = not (any (λ k. share h.1 k.1) rest) && are_apart share rest

-- An earlier Host shares it with this one.
abbrev meets : (HostConfig → HostConfig → Bool) → List HostDir → HostDir → Bool
meets share earlier h = any (λ g. share g.1 h.1) earlier

-- Each Host is apart from all before it, `earlier` first.
unfoldable are_new : (HostConfig → HostConfig → Bool) → List HostDir → List HostDir → Bool
are_new share earlier [] = true
are_new share earlier (h ∷ rest) = not (meets share earlier h) && are_new share (h ∷ earlier) rest

any_or :
    (p q : HostDir → Bool) (hs : List HostDir) → any (λ h. p h || q h) hs ≡ (any p hs || any q hs)
any_or p q [] = refl
any_or p q (h ∷ rest) = ground (arith, any_or p q rest)

any_none : (hs : List HostDir) → any (λ h. false) hs ≡ false
any_none [] = refl
any_none (h ∷ rest) = any_none rest

are_new-are_apart :
    (share : HostConfig → HostConfig → Bool) (earlier hs : List HostDir)
    → are_new share earlier hs ≡ (not (any (meets share earlier) hs) && are_apart share hs)
unfolding are_new are_apart
are_new-are_apart share earlier [] = refl
are_new-are_apart share earlier (h ∷ rest) = ground (
  arith,
  are_new-are_apart share (h ∷ earlier) rest,
  any_or (λ k. share h.1 k.1) (meets share earlier) rest,
)

found_first :
    (share : HostConfig → HostConfig → Bool) (dir : String) (h : HostConfig) (es : List HostDir)
    → is_some (first_sharing share h es) ≡ meets share es (dir, h)
unfolding first_sharing
found_first share dir h [] = refl
found_first share dir h ((d, g) ∷ rest) = ground (arith, found_first share dir h rest)

-- One Host's turn: it adds no collision exactly where none of the three maps has it.
no_collision :
    (kinds : String → String → Collision) (first : Option String) (dir : String)
    (rest : List Collision)
    → eqb (length (collision kinds first dir rest)) 0 ≡ (not (is_some first) && eqb (length rest) 0)
no_collision kinds none dir rest = refl
no_collision kinds (some d) dir rest = ground arith

-- The rest of the loop matters only where the Host is new to all three maps.
of_firsts :
    (f : List HostDir → List HostDir → List HostDir → Bool) (h : HostDir) (a b c : List HostDir)
    (hostname user port : Option String) (u v w : Bool) {x y z : Bool}
    → is_some hostname ≡ x
    → is_some user ≡ y
    → is_some port ≡ z
    → f (h ∷ a) (h ∷ b) (h ∷ c) ≡ (u && v && w)
    → (not (is_some hostname)
        && (not (is_some user)
            && (not (is_some port) && f (noted hostname h a) (noted user h b) (noted port h c))))
      ≡ ((not x && u) && (not y && v) && (not z && w))
of_firsts f h a b c (some d) user port u v w hx hy hz k = ground (arith, hx)
of_firsts f h a b c none (some d) port u v w hx hy hz k = ground (arith, hx, hy)
of_firsts f h a b c none none (some d) u v w hx hy hz k = ground (arith, hx, hy, hz)
of_firsts f h a b c none none none u v w hx hy hz k = ground (arith, hx, hy, hz, k)

module _ (lower : String → String) where
  collisions-none :
      (by_hostname by_user by_port hs : List HostDir)
      → eqb (length (collisions lower by_hostname by_user by_port hs)) 0 ≡ (
          are_new share_hostname by_hostname hs
          && are_new (share_user lower) by_user hs
          && are_new (share_port lower) by_port hs)
  unfolding collisions are_new
  collisions-none a b c [] = refl
  collisions-none a b c ((dir, h) ∷ rest) =
      let hostname = first_sharing share_hostname h a in
      let user = first_sharing (share_user lower) h b in
      let port = first_sharing (share_port lower) h c in
      let tail =
        collisions lower (noted hostname (dir, h) a) (noted user (dir, h) b) (noted port (dir, h) c)
          rest in
      no_collision same_hostname hostname dir
        (collision same_user user dir (collision same_port port dir tail))
      ∙ ap (λ r. not (is_some hostname) && r)
          (no_collision same_user user dir (collision same_port port dir tail)
            ∙ ap (λ r. not (is_some user) && r) (no_collision same_port port dir tail))
      ∙ of_firsts (λ a b c. eqb (length (collisions lower a b c rest)) 0) (dir, h) a b c hostname
          user port _ _ _ (found_first share_hostname dir h a)
          (found_first (share_user lower) dir h b) (found_first (share_port lower) dir h c)
          (collisions-none ((dir, h) ∷ a) ((dir, h) ∷ b) ((dir, h) ∷ c) rest)

  new_to_none :
      (share : HostConfig → HostConfig → Bool) (hs : List HostDir)
      → are_new share [] hs ≡ are_apart share hs
  new_to_none share hs = ground (arith, are_new-are_apart share [] hs, any_none hs)

-- A Fleet's Hosts pass exactly where no two of them declare one hostname, no two run under one user on
-- one Machine, and no two listen on one port on one Machine.
pub validate_topology_lem :
    (lower : String → String) (hosts : GoMap HostConfig)
    → eqb (length (validate_topology lower hosts)) 0 ≡ (
        are_apart share_hostname (hosts_of hosts (sort (keys hosts)))
        && are_apart (share_user lower) (hosts_of hosts (sort (keys hosts)))
        && are_apart (share_port lower) (hosts_of hosts (sort (keys hosts))))
unfolding validate_topology
validate_topology_lem lower hosts =
    let hs = hosts_of hosts (sort (keys hosts)) in
    collisions-none lower [] [] [] hs
    ∙ ground (
      arith,
      new_to_none lower share_hostname hs,
      new_to_none lower (share_user lower) hs,
      new_to_none lower (share_port lower) hs,
    )
