-- ===== src/Quality/Engine/Overall.antt =====
-- How the streams of a participant make up its verdict.
use pulse_rtc.Prelude.{◌≡◌, Bool, false, ◌||◌, List, [], ◌∷◌, arith, string_eq}
use pulse_rtc.Quality.Status.{Status, unknown, warning, poor, is, worst}
use pulse_rtc.Quality.Window.{audio, video, connection}
use pulse_rtc.Quality.Engine.{Leg, combine, overall}

-- Some leg of the kind is poor.
pub has_poor_audio : List Leg → Bool
has_poor_audio [] = false
has_poor_audio ((audio, s) ∷ legs) = is s poor || has_poor_audio legs
has_poor_audio ((video, s) ∷ legs) = has_poor_audio legs
has_poor_audio ((connection, s) ∷ legs) = has_poor_audio legs

worst_poor : (a b : Status) → is (worst a b) poor ≡ (is a poor || is b poor)
unfolding worst
worst_poor a b = ground arith

worst_warning : (a b : Status) → is b poor ≡ false → is (worst a b) poor ≡ is a poor
unfolding worst
worst_warning a b h = ground arith

combine_poor :
    (legs : List Leg) (base vid : Status)
    → is (combine legs (base, vid)).0 poor ≡ (is base poor || has_poor_audio legs)
unfolding combine has_poor_audio
combine_poor [] base vid = ground arith
combine_poor ((audio, s) ∷ legs) base vid =
    ground (arith, combine_poor legs (worst base s) vid, worst_poor base s)
combine_poor ((video, s) ∷ legs) base vid = combine_poor legs base (worst vid s)
combine_poor ((connection, s) ∷ legs) base vid = combine_poor legs base vid

-- A participant is poor exactly if its connection is poor or the audio of a stream is: poor video
-- alone never makes it worse than a warning.
pub overall_poor :
    (conn : Status) (legs : List Leg)
    → is (overall conn legs) poor ≡ (is conn poor || has_poor_audio legs)
unfolding overall
overall_poor conn legs =
    let both = combine legs (conn, unknown) in
    ground (
      arith,
      combine_poor legs conn unknown,
      worst_warning both.0 warning,
      worst_warning both.0 both.1,
    )
