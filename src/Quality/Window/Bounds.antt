-- ===== src/Quality/Window/Bounds.antt =====
-- A window holds the newest samples, and no more than its size.
use pulse_rtc.Prelude.{
  ℕ, ◌+◌, ◌-◌, ◌≤◌, ◌≡◌, List, [], ◌∷◌, ◌++◌, arith, ltb, leb, ◌==◌, if◌then◌else◌, length,
  length-append, drop, string_eq,
}
use pulse_rtc.Prelude.{length-drop}
use pulse_rtc.Quality.Window.{Derived, Window, new_window, push}

-- Pushing the samples of a list, in order.
unfoldable pub push_all : {F : Type 0} → List (Derived F) → Window F → Window F
push_all [] w = w
push_all (d ∷ ds) w = push_all ds (push d w)

-- The last `n` elements of a list.
abbrev pub last_n : {A : Type 0} → ℕ → List A → List A
last_n n xs = drop (length xs - n) xs

push-length :
    {F : Type 0} (d : Derived F) (w : Window F)
    → length w.buf ≤ w.size
    → ((push d w).size ≡ w.size)
      × (length (push d w).buf ≡ (if ltb (length w.buf) w.size then length w.buf + 1 else w.size))
unfolding push
push-length d w h = ground (
  arith,
  length-append w.buf (d ∷ []),
  length-drop (length (w.buf ++ (d ∷ [])) - w.size) (w.buf ++ (d ∷ [])),
)

length-push_all :
    {F : Type 0} (ds : List (Derived F)) (w : Window F)
    → length w.buf ≤ w.size
    → length (push_all ds w).buf
      ≡ (if leb (length w.buf + length ds) w.size then length w.buf + length ds else w.size)
unfolding push_all
length-push_all [] w h = ground arith
length-push_all (d ∷ ds) w h = ground (arith, push-length d w h, length-push_all ds (push d w))

-- After any number of samples, a new window holds all of them while they are at most its size (at
-- least 1), and from then on exactly as many as its size.
pub push_all-new :
    {F : Type 0} (size : ℕ) (ds : List (Derived F))
    → length (push_all ds (new_window size)).buf ≡ (
        if leb (length ds) (if size == 0 then 1 else size)
        then length ds
        else if size == 0
        then 1
        else size)
unfolding new_window
push_all-new size ds =
    ground (arith, length-push_all ds (record { buf = []; size = if size == 0 then 1 else size }))
