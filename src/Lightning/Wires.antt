-- ===== src/Lightning/Wires.antt =====
-- A receiver behind the pins, to say what the driver sends: it takes the level of MOSI whenever the clock
-- falls while CS is low, and what it took from one fall of CS to the next rise is a frame. It puts the next
-- bit of `replies` on MISO whenever the clock rises. It is no part of the program.
use hayselnut.Common.{List, [], ◌∷◌, ◌++◌, Bool, true, false, if◌then◌else◌}
use hayselnut.Lightning.Sensor.{Pins, done}

pub record Wires : Type 0 where
  pub cs : Bool
  pub clk : Bool
  pub mosi : Bool
  pub miso : Bool
  pub replies : List Bool
  pub received : List Bool
  pub frames : List (List Bool)

abbrev drive_cs : Bool → Wires → Wires
drive_cs level w =
    if level
    then (if w.cs
        then w
        else record w { cs = true; received = []; frames = w.frames ++ (w.received ∷ []) })
    else (if w.cs then record w { cs = false; received = [] } else w)

-- The next reply; where there is none, the line is low.
abbrev pub next_reply : List Bool → Bool
next_reply [] = false
next_reply (b ∷ rest) = b

abbrev pub later_replies : List Bool → List Bool
later_replies [] = []
later_replies (b ∷ rest) = rest

abbrev reply : Wires → Wires
reply w = record w { miso = next_reply w.replies; replies = later_replies w.replies }

abbrev drive_clk : Bool → Wires → Wires
drive_clk level w =
    if level
    then (if w.clk then w else record (if w.cs then w else reply w) { clk = true })
    else (if w.clk
        then record w {
          clk = false;
          received = if w.cs then w.received else w.received ++ (w.mosi ∷ []);
        }
        else w)

abbrev pub wires : {E : Type 0} → Pins Wires E
wires = record {
  set_cs = λ level w. done _ (drive_cs level w);
  set_clk = λ level w. done _ (drive_clk level w);
  set_mosi = λ level w. done _ (record w { mosi = level });
  miso_is_high = λ w. done w.miso w;
  sleep = λ ms w. w;
}
