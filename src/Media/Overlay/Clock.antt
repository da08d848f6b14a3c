-- ===== src/Media/Overlay/Clock.antt =====
-- src/media.c, `osd_get_time_wch`, `osd_upload` and `osd_thread`: the time that the overlay shows.
--
-- A bitmap is the text that is drawn on it. Whether `iconv_open` and RGN_SetBitMap succeed is an
-- argument; `iconv` makes a wide character of each byte of this text, which has no other ones.
use mathlib.Core.Option.{some-injective}
use montion_sense.Prelude.{
  ℕ, ◌≡◌, refl, ap, subst, ◌⊎◌, inl, inr, arith, Bool, true, false, Option, none, some, List, [],
  ◌∷◌, ◌==◌, if_elim, if◌then◌else◌,
}
use montion_sense.Storage.Paths.{digits}

-- What `localtime` gives, with the year and the month as they are printed.
pub record Time : Type 0 where
  pub hour : ℕ
  pub minute : ℕ
  pub second : ℕ
  pub year : ℕ
  pub month : ℕ
  pub day : ℕ

-- `"%H:%M:%S  %Y-%m-%d"`
unfoldable pub time_text : Time → List ℕ
time_text t = digits 10 2 t.hour (
    b':'
    ∷ digits 10 2 t.minute (
        b':'
        ∷ digits 10 2 t.second (
            b' '
            ∷ b' '
            ∷ digits 10 4 t.year (b'-' ∷ digits 10 2 t.month (b'-' ∷ digits 10 2 t.day [])))))

-- The text of `wch` after the call: it stays when `iconv_open` fails.
unfoldable pub osd_get_time_wch : Bool → Time → List ℕ → List ℕ
osd_get_time_wch opens t wch = if opens then time_text t else wch

unfoldable pub osd_upload : Bool → List ℕ → List ℕ → List ℕ
osd_upload sets text shown = if sets then text else shown

-- `last_sec`, which is -1 at first, `wch`, and what the two regions show.
pub record Osd : Type 0 where
  pub last_sec : Option ℕ
  pub wch : List ℕ
  pub h264 : List ℕ
  pub mjpeg : List ℕ

-- What one turn of the loop meets.
pub record Tick : Type 0 where
  pub now : Time
  pub opens : Bool
  pub sets_h264 : Bool
  pub sets_mjpeg : Bool

unfoldable pub same_second : Option ℕ → ℕ → Bool
same_second none s = false
same_second (some last) s = last == s

unfoldable pub osd_redraw : Tick → Osd → Osd
osd_redraw k o =
    let text = osd_get_time_wch k.opens k.now o.wch in
    record {
      last_sec = some k.now.second;
      wch = text;
      h264 = osd_upload k.sets_h264 text o.h264;
      mjpeg = osd_upload k.sets_mjpeg text o.mjpeg;
    }

unfoldable pub osd_turn : Tick → Osd → Osd
osd_turn k o = if same_second o.last_sec k.now.second then o else osd_redraw k o

unfoldable pub osd_turns : List Tick → Osd → Osd
osd_turns [] o = o
osd_turns (k ∷ ks) o = osd_turns ks (osd_turn k o)

-- Both regions show a time of this second.
abbrev pub Shows : ℕ → Osd → Type 0
Shows s o =
    (t : Time) × (t.second ≡ s)
    × (o.last_sec ≡ some s)
    × (o.h264 ≡ time_text t)
    × (o.mjpeg ≡ time_text t)

-- Nothing is drawn yet, or the last second is shown.
abbrev pub Current : Osd → Type 0
Current o = (o.last_sec ≡ none) ⊎ ((s : ℕ) × Shows s o)

abbrev pub Succeeds : Tick → Type 0
Succeeds k = (k.opens ≡ true) × (k.sets_h264 ≡ true) × (k.sets_mjpeg ≡ true)

abbrev pub AllSucceed : List Tick → Type 0
AllSucceed [] = Unit {0}
AllSucceed (k ∷ ks) = Succeeds k × AllSucceed ks

osd_redraw-Shows : (k : Tick) (o : Osd) → Succeeds k → Shows k.now.second (osd_redraw k o)
unfolding osd_redraw osd_get_time_wch osd_upload
osd_redraw-Shows k o (a, b, c) = (k.now, refl, refl, rw a (rw b refl), rw a (rw c refl))

same_second_lem : (l : Option ℕ) (s r : ℕ) → l ≡ some r → same_second l s ≡ true → r ≡ s
unfolding same_second
same_second_lem none s r e h = absurd cc
same_second_lem (some l) s r e h = let f = some-injective _ _ e in ground arith

osd_turn-Shows : (k : Tick) (o : Osd) → Succeeds k → Current o → Shows k.now.second (osd_turn k o)
unfolding osd_turn same_second
osd_turn-Shows k o g c =
    if_elim (Shows k.now.second) (same_second o.last_sec k.now.second) _ _
      (λ e. elim c [
        | inl n ↦ let f = ap (λ l. same_second l k.now.second) n in absurd cc
        | inr (s, shows) ↦
            subst (λ x. Shows x o) (same_second_lem o.last_sec k.now.second s shows.2 e) shows
      ])
      (λ _. osd_redraw-Shows k o g)

abbrev pub last_second : Tick → List Tick → ℕ
last_second k [] = k.now.second
last_second k (j ∷ ks) = last_second j ks

-- After any turns of the thread, both regions show a time whose second is that of the last turn, when the
-- calls succeed.
pub osd_turns-Shows :
    (ks : List Tick) (k : Tick) (o : Osd)
    → Succeeds k
    → AllSucceed ks
    → Current o
    → Shows (last_second k ks) (osd_turns (k ∷ ks) o)
unfolding osd_turns
osd_turns-Shows [] k o g a c = osd_turn-Shows k o g c
osd_turns-Shows (j ∷ ks) k o g (h, a) c =
    osd_turns-Shows ks j (osd_turn k o) h a (inr (k.now.second, osd_turn-Shows k o g c))
