-- ===== src/Examples/Bars.antt =====
-- The theorems on swayrbar, at a small bar.
use swayr.Base.{
  inl, ◌≡◌, ◌≢◌, refl, ℕ, ◌+◌, ◌*◌, ◌/◌, true, false, Option, none, some, pos, String, List, [],
  ◌∷◌, ◌++◌, ret, leb, map, arith, string_eq, ◌==◌, if◌then◌else◌,
}
use text.Mathlib.TextEquality.{eq_iff}
use swayr.Base.Exec.{pure, ◌>>=◌, ◌>>◌}
use swayr.Base.Dict.{get}
use swayr.Base.Texts.{show_int}
use swayr.Ipc.{get_root_node, iter, get_type}
use swayr.Fmt.{contains_text, FmtArg, string, to_string}
use swayr.Fmt.Placeholders.{subst_placeholders}
use swayr.Fmt.Placeholders.Templates.{Segment, literal, hole, filled, subst_placeholders-written}
use swayr.Bar.Outside.{Crates, Outside, World, Printed, line, not_run, finished, status, tick}
use swayr.Bar.Module.{NameInstanceAndReason, click_event, sway_event, block}
use swayr.Bar.Status.{
  BarModule, window, date, pactl, build, print, generate_status_1, generate_status,
}
use swayr.Bar.Status.Laws.{shown, generate_status_1-named}
use swayr.Bar.Status.Shows.{Shots, generate_status-shows}
use swayr.Bar.Window
use swayr.Bar.Window.Laws.{describes, build-describes}
use swayr.Bar.Date
use swayr.Bar.Clicks.Shown.{heard, click-shown}
use swayr.Bar.Pactl as Pactl
use swayr.Bar.Pactl.{volume_rx, volume_of}
use swayr.Bar.Pactl.Laws.{volume_of-digits}
use swayr.Bar.Nmcli.{read_output}
use swayr.Bar.Nmcli as Nmcli
use swayr.Bar.Nmcli.Laws.{Network, read_output-printed}
use swayr.Bar.Clicks.{handle_click, subst_args}
use swayr.Bar.Clicks.Laws.{click, handle_click-first}
use swayr.Bar.Events.{Item, stream, shut_down, handle_sway_events}
use swayr.Bar.Events.Laws.{handle_sway_events-told}
use swayr.Bar.Defaults as Defaults
use swayr.Examples.Data.{floats, root}
use swayr.Examples.Data as Data

-- Values are put in as they are.
abbrev plain : String → FmtArg floats → Option String
plain fmt arg = some (to_string arg)

abbrev crates : Crates
crates = record {
  floats = floats;
  format = plain;
  f32_of = λ n. n;
  f32_add = λ a b. a + b;
  f32_mul = λ a b. a * b;
  f32_div = λ a b. a / b;
  f64_of = λ n. n;
  f64_mul = λ a b. a * b;
  f64_div = λ a b. a / b;
  System = ℕ;
  cpu_usage = λ s. s;
  used_memory = λ s. s;
  total_memory = λ s. 16;
  is_decimal = λ c. if leb b'0' c then leb c b'9' else false;
}

abbrev outside : Outside crates
outside = record {
  tree = some root;
  command = λ prog args. not_run;
  manager = true;
  batteries = some [];
  hash_order = λ l. l;
  local_time = λ fmt. some "12:00";
  refresh_cpu = λ s. s + 1;
  refresh_memory = λ s. s + 2;
  load_average = record { one = 1; five = 5; fifteen = 15 };
  new_system = 0;
}

abbrev world : World crates
world = record { outside = λ n. outside; now = 0; ran = []; output = [] }

differ : (s t : String) → (s == t) ≡ false → s ≢ t
differ s t e h = cc (e, (eq_iff s t).1 h)

-- `{title} on {host}`, with an unknown second name.
abbrev template : List Segment
template =
    hole (record { name = "title"; suffix = some (":.5", "...") })
    ∷ literal " on "
    ∷ hole (record { name = "host"; suffix = none })
    ∷ []

abbrev title_only : String → Option (FmtArg floats)
title_only key = if key == "title" then some (string "mail") else none

subst_placeholders-written_example :
    subst_placeholders plain "{title:{:.5}...} on {host}" false title_only
    ≡ filled plain false title_only template
subst_placeholders-written_example = subst_placeholders-written plain false title_only template (
  (
    differ "title" "" refl,
    (refl, (refl, (refl, (refl, (refl, tt))))),
    ((refl, (refl, (refl, tt))), (refl, (refl, (refl, tt)))),
  ),
  (
    (refl, (refl, (refl, (refl, tt)))),
    ((differ "host" "" refl, (refl, (refl, (refl, (refl, tt)))), tt), tt),
  ),
)

abbrev started : Window.State
started = record { name = "mail"; app_name = "web"; pid = pos 7; cached_text = "mail" }

abbrev bar : List (BarModule crates)
bar = window (Defaults.window "0") started ∷ date (Defaults.date "0") Date.create ∷ []

-- An event for the clock.
generate_status_1-named_example :
    generate_status_1 bar (some ("date", "0", click_event)) world
    ≡ (build (date (Defaults.date "0") Date.create) (some ("date", "0", click_event)) >>= λ x.
          print (status (block "window" (Defaults.window "0") "mail" ∷ x.1 ∷ []))
          >> pure (window (Defaults.window "0") started ∷ x.0 ∷ []))
        world
generate_status_1-named_example =
    generate_status_1-named (window (Defaults.window "0") started ∷ []) []
      (date (Defaults.date "0") Date.create) "date" "0" click_event world
      ((λ h. differ "date" "window" refl h.0, λ h. cc), tt) tt

-- The window 1 has the focus, and sway says so.
build-describes_example :
    Window.build (Defaults.window "0") started (some ("window", "0", sway_event)) world ≡ (
      ret (
        describes crates (Defaults.window "0") (some (Data.window 1 true false)) started,
        block "window"
            (Defaults.window "0")
            (describes crates
              (Defaults.window "0")
              (some (Data.window 1 true false))
              started).cached_text,
      ),
      tick world,
    )
unfolding iter get_root_node get_type
build-describes_example =
    build-describes crates (Defaults.window "0") started world root
      (some (Data.window 1 true false)) refl
      (
        root
            ∷ Data.output
            ∷ Data.workspace
            ∷ Data.window 3 false false
            ∷ Data.window 2 false false
            ∷ [],
        [],
        refl,
        (inl refl, (inl refl, (inl refl, (inl refl, (inl refl, tt))))),
        refl,
        refl,
      )

volume_of-digits_example : volume_of crates "Volume: 65536 / 100%" ≡ ret 100
unfolding volume_rx
volume_of-digits_example = volume_of-digits crates "Volume: 65536 / 100%" "100" refl (omega arith)

abbrev networks : List Network
networks =
    record { in_use = false; ssid = "cafe"; signal = "40"; bars = "__" }
    ∷ record { in_use = true; ssid = "home"; signal = "90"; bars = "___" }
    ∷ []

read_output-printed_example :
    read_output " :cafe:40:__\n*:home:90:___\n" Nmcli.create
    ≡ ret (record Nmcli.create { name = some "home"; signal = some "90"; bars = some "___" })
read_output-printed_example = read_output-printed networks Nmcli.create (search)

abbrev two_modules : List (BarModule crates)
two_modules = date (Defaults.date "0") Date.create ∷ window (Defaults.window "0") started ∷ []

-- A right click on the window module kills its window.
handle_click-first_example :
    handle_click (click "window" "0" "Right") two_modules world
    ≡ (ret none, record world { ran = ("kill" ∷ "7" ∷ []) ∷ [] })
unfolding subst_args get show_int
handle_click-first_example =
    handle_click-first {c = crates} "window" "0" "Right" (date (Defaults.date "0") Date.create ∷ [])
      [] (window (Defaults.window "0") started) ("kill" ∷ "{pid}" ∷ []) "kill" ("7" ∷ []) world
      world ((λ cmd h. differ "window" "date" refl h.is_name), tt)
      (record {
        on_click =
            ("Left", "swayr" ∷ "switch-to-urgent-or-lru-window" ∷ [])
            ∷ ("Right", "kill" ∷ "{pid}" ∷ [])
            ∷ [];
        is_name = refl;
        is_instance = refl;
        has_map = refl;
        has_command = refl;
      })
      refl

-- The wheel raises the volume.
abbrev wheel : List String
wheel = "pactl" ∷ "set-sink-volume" ∷ "@DEFAULT_SINK@" ∷ "+1%" ∷ []

abbrev volume : BarModule crates
volume = pactl (Defaults.pactl "0") Pactl.create

abbrev three_modules : List (BarModule crates)
three_modules =
    date (Defaults.date "0") Date.create ∷ volume ∷ window (Defaults.window "0") started ∷ []

-- A machine on which `pactl` prints a volume of 40 percent.
abbrev loud : World crates
loud = record world {
  outside = λ n. record outside {
    command = λ prog args. finished true true "Volume: front-left: 26214 /  40% / -23 dB";
  };
}

abbrev at_forty : Pactl.State
at_forty = heard crates (Defaults.pactl "0") 40 false

click-shown_example :
    (handle_click (click "pactl" "0" "WheelUp") three_modules world
      ≡ (ret (some ("pactl", "0", click_event)), record world { ran = wheel ∷ [] }))
    × (generate_status_1 three_modules (some ("pactl", "0", click_event)) loud ≡ (
      ret (
          date (Defaults.date "0") Date.create
          ∷ pactl (Defaults.pactl "0") at_forty
          ∷ window (Defaults.window "0") started
          ∷ []),
      record (tick (tick loud)) {
        output =
            status (
              block "date" (Defaults.date "0") ""
              ∷ block "pactl" (Defaults.pactl "0") at_forty.cached_text
              ∷ block "window" (Defaults.window "0") "mail"
              ∷ [])
            ∷ [];
      },
    ))
unfolding subst_args get volume_of contains_text Pactl.output_text
click-shown_example =
    click-shown {c = crates} (date (Defaults.date "0") Date.create ∷ [])
      (window (Defaults.window "0") started ∷ []) (Defaults.pactl "0") Pactl.create "WheelUp"
      "pactl" wheel ("set-sink-volume" ∷ "@DEFAULT_SINK@" ∷ "+1%" ∷ []) world world loud 40 refl
      ((λ cmd h. differ "pactl" "date" refl h.is_name), tt)
      (record {
        on_click =
            ("Left", "pavucontrol" ∷ [])
            ∷ ("Right", "pactl" ∷ "set-sink-mute" ∷ "@DEFAULT_SINK@" ∷ "toggle" ∷ [])
            ∷ ("WheelUp", wheel)
            ∷ ("WheelDown", "pactl" ∷ "set-sink-volume" ∷ "@DEFAULT_SINK@" ∷ "-1%" ∷ [])
            ∷ [];
        is_name = refl;
        is_instance = refl;
        has_map = refl;
        has_command = refl;
      })
      refl ((λ h. differ "pactl" "date" refl h.0, tt), tt)
      ((λ h. differ "pactl" "window" refl h.0, λ h. cc), tt) refl

handle_sway_events-told_example :
    handle_sway_events
      (("window", "0") ∷ [])
      (map stream ((Item.window ∷ []) ∷ (Item.error ∷ Item.workspace ∷ Item.shutdown ∷ []) ∷ []))
    ≡ (
      shut_down,
      record { resets = 0; sent = ("window", "0", sway_event) ∷ ("window", "0", sway_event) ∷ [] },
    )
handle_sway_events-told_example =
    handle_sway_events-told (("window", "0") ∷ [])
      ((Item.window ∷ []) ∷ (Item.error ∷ Item.workspace ∷ Item.shutdown ∷ []) ∷ [])
      ((λ e. cc), ((λ e. cc), tt))

-- A status that the clock of the bar causes.
abbrev ticked : List (BarModule crates)
ticked =
    window (Defaults.window "0") started
    ∷ date (Defaults.date "0") (record { cached_text = "12:00" })
    ∷ []

abbrev header : List Printed
header = line "{\"version\": 1, \"click_events\": true}" ∷ line "[" ∷ []

-- Two ticks.
abbrev ticks : List (Option NameInstanceAndReason)
ticks = none ∷ none ∷ []

abbrev printed : World crates
printed = record (tick (tick world)) {
  output = header ++ status (map shown ticked) ∷ status (map shown ticked) ∷ [];
}

generate_status-shows_example : Shots bar ticks (record world { output = header }) ticked printed
unfolding generate_status
generate_status-shows_example = generate_status-shows bar ticked ticks world printed refl
