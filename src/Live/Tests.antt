-- ===== src/Live/Tests.antt =====
-- The theorems on the bus at small hubs; a response time is a number here.
use uptime_cairn.Base.{
  ℕ, ◌-◌, ◌≡◌, refl, true, false, List, [], ◌∷◌, none, some, arith, length, get_elem?,
}
use uptime_cairn.Base.Int.{pos}
use uptime_cairn.Base.Bytes.{codes}
use uptime_cairn.Live.{
  Update, Summary, update, Subscription, close, subscribers, publish, buffer_depth,
}
use uptime_cairn.Live.Viewport.{publish_each, publish_each-after, after, relevant}
use uptime_cairn.Live.Summariser.{Summariser}

abbrev down : Update ℕ
down = record {
  monitor_id = 7;
  status = codes "down";
  at = pos 0;
  response_time_ms = none;
  important = true;
  message = codes "timeout";
  state_version = 3;
}

abbrev other : Update ℕ
other = record down { monitor_id = 8; important = false }

abbrev viewer : Subscription ℕ
viewer = record {
  channel = [];
  channel_closed = false;
  scope = 7 ∷ [];
  closed = false;
  is_registered = true;
  dropped = 0;
}

abbrev bystander : Subscription ℕ
bystander = record viewer { scope = 9 ∷ 10 ∷ [] }

abbrev hub : List (Subscription ℕ)
hub = viewer ∷ bystander ∷ []

only_the_viewer : publish down hub ≡ record viewer { channel = update down ∷ [] } ∷ bystander ∷ []
unfolding publish
only_the_viewer = refl

closed_gets_nothing : publish down (close viewer ∷ bystander ∷ []) ≡ close viewer ∷ bystander ∷ []
unfolding publish close
closed_gets_nothing = refl

two_open : subscribers hub ≡ 2
unfolding subscribers
two_open = refl

publish_each-after_example :
    get_elem? (publish_each (down ∷ other ∷ down ∷ []) hub) 0
    ≡ some (
        after viewer
          (buffer_depth - length (viewer.channel))
          (relevant (7 ∷ []) (down ∷ other ∷ down ∷ [])))
publish_each-after_example =
    publish_each-after (down ∷ other ∷ down ∷ []) hub 0 viewer refl refl refl (omega arith)
      (omega arith)

abbrev quiet : Summariser ℕ
quiet = record { subs = hub; dirty = false }

abbrev header : Summary
header = record { counts = (codes "down", 1) ∷ []; at = pos 0 }
