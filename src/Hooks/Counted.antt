-- ===== src/Hooks/Counted.antt =====
-- What the loop of `ieee80211_register_hw` over the bands computes, against sums and maxima over the bands there are.
use v_mac_kernel.Prelude.{
  ℕ, ◌+◌, ◌≡◌, refl, ap, ◌∙◌, List, [], ◌∷◌, Option, none, some, Bool, true, false, not, ◌&&◌, ◌||◌,
  ltb, if◌then◌else◌, arith, Bool-cases, inl, inr,
}
use v_mac_kernel.Hooks.{Band, Chandef, Local, Platform}
use v_mac_kernel.Hooks.Bands.{is_null, Scan, scan_bands, choose_channel, count_band, mark_band}
use v_mac_kernel.Hooks.Register.{scan_from}

-- The bands that there are.
abbrev pub present : List (Option Band) → List Band
present [] = []
present (none ∷ bs) = present bs
present (some b ∷ bs) = b ∷ present bs

abbrev pub total : (Band → ℕ) → List Band → ℕ
total f [] = 0
total f (b ∷ bs) = f b + total f bs

abbrev pub max : ℕ → ℕ → ℕ
max a b = if ltb a b then b else a

abbrev pub greatest : (Band → ℕ) → List Band → ℕ
greatest f [] = 0
greatest f (b ∷ bs) = max (f b) (greatest f bs)

abbrev pub any : (Band → Bool) → List Band → Bool
any f [] = false
any f (b ∷ bs) = f b || any f bs

abbrev pub map_present : (Band → Band) → List (Option Band) → List (Option Band)
map_present f [] = []
map_present f (none ∷ bs) = none ∷ map_present f bs
map_present f (some b ∷ bs) = some (f b) ∷ map_present f bs

-- The counts of a run of the loop from `s` on.
pub record Counted (bs : List (Option Band)) (s : Scan) (bs' : List (Option Band)) (s' : Scan)
    : Type 0 where
  pub channels : s'.channels ≡ s.channels + total (λ b. b.n_channels) (present bs)
  pub max_bitrates :
      s'.max_bitrates ≡ max s.max_bitrates (greatest (λ b. b.n_bitrates) (present bs))
  pub supp_ht : s'.supp_ht ≡ (s.supp_ht || any (λ b. b.ht_supported) (present bs))
  pub supp_vht : s'.supp_vht ≡ (s.supp_vht || any (λ b. b.vht_supported) (present bs))
  pub bands : bs' ≡ map_present mark_band bs

module _ (p : Platform) where
  choose_channel-counts :
      (b : Band) (s : Scan)
      → choose_channel p b s ≡ (record s {
        dflt_chandef = (choose_channel p b s).dflt_chandef;
        local = (choose_channel p b s).local;
      })
  unfolding choose_channel
  choose_channel-counts b s = elim (Bool-cases (is_null s.dflt_chandef.chan)) [
    | inl first ↦ rw (first, choose_channel) refl
    | inr later ↦ rw (later, choose_channel) refl
  ]

  or_assoc : (a b c : Bool) → ((a || b) || c) ≡ (a || (b || c))
  or_assoc true b c = refl
  or_assoc false b c = refl

  max_assoc : (a b c : ℕ) → max (max a b) c ≡ max a (max b c)
  max_assoc a b c = ground arith

  scan_bands-Counted :
      (bs : List (Option Band)) (s : Scan)
      → Counted bs s (scan_bands p bs s).0 (scan_bands p bs s).1
  unfolding scan_bands count_band
  scan_bands-Counted [] s = record {
    channels = omega arith;
    max_bitrates = ground arith;
    supp_ht = ground arith;
    supp_vht = ground arith;
    bands = refl;
  }
  scan_bands-Counted (none ∷ bs) s =
      let i = scan_bands-Counted bs s in
      record {
        channels = i.channels;
        max_bitrates = i.max_bitrates;
        supp_ht = i.supp_ht;
        supp_vht = i.supp_vht;
        bands = ap (λ x. none ∷ x) i.bands;
      }
  scan_bands-Counted (some b ∷ bs) s =
      let c = choose_channel-counts b s in
      let i = scan_bands-Counted bs (count_band b (choose_channel p b s)) in
      let rates = greatest (λ b'. b'.n_bitrates) (present bs) in
      let ht = any (λ b'. b'.ht_supported) (present bs) in
      let vht = any (λ b'. b'.vht_supported) (present bs) in
      record {
        channels = omega (arith, i.channels, ap (λ x. x.channels) c);
        max_bitrates =
            i.max_bitrates
            ∙ ap (λ x. max (max x.max_bitrates b.n_bitrates) rates) c
            ∙ max_assoc s.max_bitrates b.n_bitrates rates;
        supp_ht =
            i.supp_ht
            ∙ ap (λ x. (x.supp_ht || b.ht_supported) || ht) c
            ∙ or_assoc s.supp_ht b.ht_supported ht;
        supp_vht =
            i.supp_vht
            ∙ ap (λ x. (x.supp_vht || b.vht_supported) || vht) c
            ∙ or_assoc s.supp_vht b.vht_supported vht;
        bands = ap (λ x. some (mark_band b) ∷ x) i.bands;
      }

-- The channel of the first band.
abbrev pub first_chandef : Platform → List Band → Option Chandef
first_chandef p [] = none
first_chandef p (b ∷ bs) = some (p.chandef_create b.channel)

-- The hardware on a channel: monitored always, operated on unless it has channel contexts or a channel.
abbrev pub on_channel : Local → Option Chandef → Local
on_channel l none = l
on_channel l (some d) =
    if not l.use_chanctx && is_null l.oper_chandef.chan
    then record l { chandef = d; oper_chandef = d; monitor_chandef = d }
    else record l { monitor_chandef = d }

module _ (p : Platform) where
  choose_channel-later :
      (b : Band) (s : Scan) → is_null s.dflt_chandef.chan ≡ false → choose_channel p b s ≡ s
  unfolding choose_channel
  choose_channel-later b s h = rw (h, choose_channel) refl

  choose_channel-first :
      (b : Band) (s : Scan)
      → is_null s.dflt_chandef.chan ≡ true
      → ((choose_channel p b s).dflt_chandef ≡ p.chandef_create b.channel)
        × ((choose_channel p b s).local ≡ on_channel s.local (some (p.chandef_create b.channel)))
  unfolding choose_channel
  choose_channel-first b s h =
      elim (Bool-cases (not s.local.use_chanctx && is_null s.local.oper_chandef.chan)) [
        | inl idle ↦ (rw (h, choose_channel) refl, rw (h, idle, choose_channel) refl)
        | inr busy ↦ (rw (h, choose_channel) refl, rw (h, busy, choose_channel) refl)
      ]

  scan_bands-later :
      (bs : List (Option Band)) (s : Scan)
      → is_null s.dflt_chandef.chan ≡ false
      → (scan_bands p bs s).1.local ≡ s.local
  unfolding scan_bands count_band
  scan_bands-later [] s h = refl
  scan_bands-later (none ∷ bs) s h = scan_bands-later bs s h
  scan_bands-later (some b ∷ bs) s h =
      let e = choose_channel-later b s h in
      scan_bands-later bs (count_band b (choose_channel p b s))
        (ap (λ x. is_null x.dflt_chandef.chan) e ∙ h)
      ∙ ap (λ x. x.local) e

  scan_bands-first :
      ((n : ℕ) → is_null (p.chandef_create n).chan ≡ false)
      → (bs : List (Option Band)) (s : Scan) → is_null s.dflt_chandef.chan ≡ true
      → (scan_bands p bs s).1.local ≡ on_channel s.local (first_chandef p (present bs))
  unfolding scan_bands count_band
  scan_bands-first create [] s h = refl
  scan_bands-first create (none ∷ bs) s h = scan_bands-first create bs s h
  scan_bands-first create (some b ∷ bs) s h =
      let (d, l) = choose_channel-first b s h in
      scan_bands-later bs (count_band b (choose_channel p b s))
        (ap (λ x. is_null x.chan) d ∙ create b.channel)
      ∙ l

-- What the loop of a registration leaves, for the bands `bs` there are.
pub record Scanned (p : Platform) (l : Local) (bs : List Band) (s : Scan) : Type 0 where
  pub channels : s.channels ≡ total (λ b. b.n_channels) bs
  pub max_bitrates : s.max_bitrates ≡ greatest (λ b. b.n_bitrates) bs
  pub supp_ht : s.supp_ht ≡ any (λ b. b.ht_supported) bs
  pub supp_vht : s.supp_vht ≡ any (λ b. b.vht_supported) bs
  pub local : s.local ≡ on_channel l (first_chandef p bs)

-- If `cfg80211_chandef_create` gives a channel, the loop over the bands leaves the sum of the numbers of channels, the
-- greatest number of rates and the disjunctions of the capabilities of the bands that there are, the hardware on the
-- channel of the first of these, and every band that supports HT marked.
pub scan_bands_lem :
    (p : Platform) (l : Local)
    → ((n : ℕ) → is_null (p.chandef_create n).chan ≡ false)
    → ((scan_bands p l.wiphy.bands (scan_from l)).0 ≡ map_present mark_band l.wiphy.bands)
      × Scanned p l (present l.wiphy.bands) (scan_bands p l.wiphy.bands (scan_from l)).1
scan_bands_lem p l create =
    let c = scan_bands-Counted p l.wiphy.bands (scan_from l) in
    (
      c.bands,
      record {
        channels = omega (arith, c.channels);
        max_bitrates = ground (arith, c.max_bitrates);
        supp_ht = c.supp_ht;
        supp_vht = c.supp_vht;
        local = scan_bands-first p create l.wiphy.bands (scan_from l) refl;
      },
    )
