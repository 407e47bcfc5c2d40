-- ===== src/Network/Lives.antt =====
-- The life of a flight as a state machine, and how a network's flights move along it.
use mathlib.Core.Path.{subst}
use distlab.Base.{
  ◌≡◌, refl, sym, ◌∙◌, ap, ◌⊎◌, inl, inr, true, false, none, some, Text, text_eq, text_eq_iff,
  Bool-cases,
}
use distlab.Base.Dicts.{find, enter, find-enter}
use distlab.Network.{Flight, sent, admitted, timed_out, Network}
use distlab.Network.Settling.{answered, may_reply}

-- What can happen to a flight: it is delivered, it gets its one reply, a reply that comes back
-- settles it, or its deadline does.
pub data Moves (f : Flight) : Flight → Type 0 where
  admits : Moves f (record f { state = admitted })
  answers : f.replied ≡ false → may_reply f.state ≡ true → Moves f (answered f)
  settles : f.settled ≡ false → Moves f (record f { settled = true })
  times_out : f.settled ≡ false → Moves f (record f { settled = true; state = timed_out })

pub data Lives (f : Flight) : Flight → Type 0 where
  stays : Lives f f
  moves : {g h : Flight} → Lives f g → Moves g h → Lives f h

pub Lives-trans : {f g h : Flight} → Lives f g → Lives g h → Lives f h
Lives-trans a stays = a
Lives-trans a (moves b m) = moves (Lives-trans a b) m

-- A flight that has just been sent.
pub record IsNew (f : Flight) : Type 0 where
  pub is_sent : f.state ≡ sent
  pub unanswered : f.replied ≡ false
  pub unsettled : f.settled ≡ false

module _ {W : Type 0} where
  -- Every flight of the one network lives on in the other; every flight of the other is one of
  -- those, or one that was sent in between.
  pub record Evolves (n t : Network W) : Type 0 where
    pub forwards :
        (id : Text) (f : Flight)
        → find id n.flights ≡ some f
        → (g : Flight) × (find id t.flights ≡ some g) × Lives f g
    pub backwards :
        (id : Text) (g : Flight)
        → find id t.flights ≡ some g
        → ((f : Flight) × (find id n.flights ≡ some f) × Lives f g)
          ⊎ ((f : Flight) × IsNew f × Lives f g)
    pub links : t.links ≡ n.links
    pub targets : t.targets ≡ n.targets

  pub Evolves-refl : (n : Network W) → Evolves n n
  Evolves-refl n = record {
    forwards = λ id f e. (f, e, stays);
    backwards = λ id g e. inl (g, e, stays);
    links = refl;
    targets = refl;
  }

  -- The same flights and links.
  pub Evolves-same :
      (n t u : Network W)
      → u.flights ≡ t.flights
      → u.links ≡ t.links
      → u.targets ≡ t.targets
      → Evolves n t
      → Evolves n u
  Evolves-same n t u same links targets v = record {
    forwards = λ id f e. let (g, e', l) = v.forwards id f e in (g, ap (find id) same ∙ e', l);
    backwards = λ id g e. v.backwards id g (ap (find id) (sym same) ∙ e);
    links = links ∙ v.links;
    targets = targets ∙ v.targets;
  }

  -- One flight moves.
  pub Evolves-moves :
      (n t : Network W) (id : Text) (g h : Flight)
      → find id t.flights ≡ some g
      → Moves g h
      → Evolves n t
      → Evolves n (record t { flights = enter id h t.flights })
  Evolves-moves n t id g h here m v = record {
    forwards = λ k f e.
        let (x, e', l) = v.forwards k f e in
        elim (Bool-cases (text_eq id k)) [
          | inl same ↦
              let there : find k t.flights ≡ some g =
                ap (λ (s : Text). find s t.flights) (sym ((text_eq_iff id k).0 same)) ∙ here in
              let one : x ≡ g = cc in
              (h, find-enter id k h t.flights ∙ rw same refl, moves (subst (Lives f) one l) m)
          | inr other ↦ (x, find-enter id k h t.flights ∙ rw other e', l)
        ];
    backwards = λ k x e.
        let e' = sym (find-enter id k h t.flights) ∙ e in
        elim (Bool-cases (text_eq id k)) [
          | inl same ↦
              let one : h ≡ x = (let q = rw same at e' in cc) in
              let there : find k t.flights ≡ some g =
                ap (λ (s : Text). find s t.flights) (sym ((text_eq_iff id k).0 same)) ∙ here in
              elim (v.backwards k g there) [
                | inl (f, a, l) ↦ inl (f, a, subst (Lives f) one (moves l m))
                | inr (f, a, l) ↦ inr (f, a, subst (Lives f) one (moves l m))
              ]
          | inr other ↦ v.backwards k x (rw other at e')
        ];
    links = v.links;
    targets = v.targets;
  }

  -- One flight departs, under an identity of its own.
  pub Evolves-departs :
      (n t : Network W) (id : Text) (h : Flight)
      → find id t.flights ≡ none
      → IsNew h
      → Evolves n t
      → Evolves n (record t { flights = enter id h t.flights })
  Evolves-departs n t id h free new v = record {
    forwards = λ k f e.
        let (x, e', l) = v.forwards k f e in
        elim (Bool-cases (text_eq id k)) [
          | inl same ↦
              let gone : find k t.flights ≡ none =
                ap (λ (s : Text). find s t.flights) (sym ((text_eq_iff id k).0 same)) ∙ free in
              absurd (cc)
          | inr other ↦ (x, find-enter id k h t.flights ∙ rw other e', l)
        ];
    backwards = λ k x e.
        let e' = sym (find-enter id k h t.flights) ∙ e in
        elim (Bool-cases (text_eq id k)) [
          | inl same ↦
              let one : h ≡ x = (let q = rw same at e' in cc) in
              inr (h, new, subst (Lives h) one stays)
          | inr other ↦ v.backwards k x (rw other at e')
        ];
    links = v.links;
    targets = v.targets;
  }
