-- ===== src/Monitor/File.antt =====
-- `FileMonitoring` of dht/monitoring/file.go. The dictionaries hold pointers to the metrics.
use open_acn.Base.{
  String, Bool, true, false, Option, none, some, List, [], ◌∷◌, Result, ok, panic, Exec,
  if◌then◌else◌,
}
use open_acn.Base.GoMap.{GoMap, lookup, insert}
use open_acn.Acn.Message.{◌+ˢ◌}
use open_acn.Monitor.Gauge.{Float, Ref, allocate, read_cell}
use open_acn.Monitor.Histogram.{FileHistogram, new_file_histogram}
use open_acn.Monitor.Timer.{NamedTimers}

-- The channel `closing` is nil, open or closed.
pub data Closing : Type 0 where
  no_channel open_channel closed_channel : Closing

module _ (float : Float) where
  open float use {F, zero_value, format}

  -- The cells of the metrics, and what the file holds.
  pub record FileMonitoring : Type 0 where
    pub namespace : String
    pub gauge_dict : GoMap Ref
    pub counter_dict : GoMap Ref
    pub histo_dict : GoMap Ref
    pub gauges : List F
    pub counters : List F
    pub histograms : List (FileHistogram float)
    pub timer : NamedTimers
    pub path : String
    pub write : Bool
    pub closing : Closing
    pub file : String

  -- `cwd` is the directory that `os.Getwd` gives.
  abbrev pub new_file_monitoring : String → String → Bool → FileMonitoring
  new_file_monitoring cwd namespace write = record {
    namespace = namespace;
    gauge_dict = [];
    counter_dict = [];
    histo_dict = [];
    gauges = [];
    counters = [];
    histograms = [];
    timer = [];
    path = cwd +ˢ "/" +ˢ namespace +ˢ ".stats";
    write = write;
    closing = no_channel;
    file = "";
  }

  abbrev put_counter : String → Ref × List F → FileMonitoring → Result Ref × FileMonitoring
  put_counter name (r, cells) s =
      (ok r, record s { counters = cells; counter_dict = insert name r s.counter_dict })

  unfoldable pub new_counter : String → Exec FileMonitoring Ref
  new_counter name s = put_counter name (allocate zero_value s.counters) s

  abbrev pub get_counter : String → FileMonitoring → Option Ref
  get_counter name s = lookup name s.counter_dict

  abbrev put_gauge : String → Ref × List F → FileMonitoring → Result Ref × FileMonitoring
  put_gauge name (r, cells) s =
      (ok r, record s { gauges = cells; gauge_dict = insert name r s.gauge_dict })

  unfoldable pub new_gauge : String → Exec FileMonitoring Ref
  new_gauge name s = put_gauge name (allocate zero_value s.gauges) s

  abbrev pub get_gauge : String → FileMonitoring → Option Ref
  get_gauge name s = lookup name s.gauge_dict

  abbrev put_histogram :
      String → Ref × List (FileHistogram float) → FileMonitoring → Result Ref × FileMonitoring
  put_histogram name (r, cells) s =
      (ok r, record s { histograms = cells; histo_dict = insert name r s.histo_dict })

  unfoldable pub new_histogram : String → List F → Exec FileMonitoring Ref
  new_histogram name buckets s =
      put_histogram name (allocate (new_file_histogram float buckets) s.histograms) s

  abbrev pub get_histogram : String → FileMonitoring → Option Ref
  get_histogram name s = lookup name s.histo_dict

  abbrev pub shown : Option F → String
  shown none = ""
  shown (some v) = format v

  -- A line for each metric of a dictionary; Go does not fix the order in which it visits them.
  unfoldable pub stat_lines : String → List F → GoMap Ref → String
  stat_lines namespace cells [] = ""
  stat_lines namespace cells ((name, r) ∷ dict) =
      namespace
      +ˢ "_"
      +ˢ name
      +ˢ " "
      +ˢ shown (read_cell r cells)
      +ˢ "\n"
      +ˢ stat_lines namespace cells dict

  unfoldable pub get_stats : FileMonitoring → String
  unfolding stat_lines
  get_stats s =
      stat_lines s.namespace s.gauges s.gauge_dict
      +ˢ stat_lines s.namespace s.counters s.counter_dict

  -- `Start` up to its loop: whether it goes on.
  unfoldable pub start : Exec FileMonitoring Bool
  start s = elim s.closing [
    | no_channel ↦ if s.write then (ok true, record s { closing = open_channel }) else (ok false, s)
    | open_channel ↦ (ok false, s)
    | closed_channel ↦ (ok false, s)
  ]

  -- A round of its loop: whether it goes on. The file is open, and writing it does not fail.
  unfoldable pub write_round : Exec FileMonitoring Bool
  write_round s = elim s.closing [
    | closed_channel ↦ (ok false, s)
    | open_channel ↦ (ok true, record s { file = get_stats s })
    | no_channel ↦ (ok true, record s { file = get_stats s })
  ]

  -- Closing no channel, or a closed one, panics.
  unfoldable pub stop : Exec FileMonitoring (Unit {0})
  stop s = elim s.closing [
    | open_channel ↦ (ok tt, record s { closing = closed_channel })
    | no_channel ↦ (panic, s)
    | closed_channel ↦ (panic, s)
  ]

  abbrev pub info : FileMonitoring → String
  info s = "FileMonitoring on " +ˢ s.path
