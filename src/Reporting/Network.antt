-- ===== src/Reporting/Network.antt =====
-- CommentNetworkBuilder of app/reporting/network.py. `show_id` writes an id as text, as the source does
-- with a UUID. A comment has at most one result in a run, so the outer join is a lookup.
pub mod Balance
use Prim.Native.String
use hate_speech_rag_service.Common.{
  ℕ, suc, ◌+◌, String, Bool, true, false, not, ◌&&◌, Option, none, some, List, [], ◌∷◌, ◌++◌, ◌==◌,
  nat_Eq, string_Eq, if◌then◌else◌, filter, find?, map, count, length, is_some, or_else,
}
use hate_speech_rag_service.Common.Json.{int}
use hate_speech_rag_service.Db.JobRows.{JobStatus}
use hate_speech_rag_service.Db.Content.{CommentSnapshot}
use hate_speech_rag_service.Db.Results.{
  AnalysisRun, AnalysisResult, CommentNetwork, CommentNetworkNode, CommentNetworkEdge,
}
use hate_speech_rag_service.Db.Database.{Database}

-- A text that Python takes for true.
abbrev pub is_text : Option String → Bool
is_text none = false
is_text (some s) = not (s == "")

-- `a or b`
abbrev pub text_or_text : Option String → Option String → Option String
text_or_text a b = if is_text a then a else b

pub record NodeStats : Type 0 where
  pub comment_count : ℕ
  pub hate_count : ℕ
  pub in_degree : ℕ
  pub out_degree : ℕ
  pub label : Option String
  pub channel : Option String

abbrev pub no_stats : NodeStats
no_stats = record {
  comment_count = 0;
  hate_count = 0;
  in_degree = 0;
  out_degree = 0;
  label = none;
  channel = none;
}

-- The `defaultdict`, in the order in which its keys were first used.
abbrev pub StatsTable : Type 0
StatsTable = List (String × NodeStats)

unfoldable pub update_stats : String → (NodeStats → NodeStats) → StatsTable → StatsTable
update_stats key f [] = (key, f no_stats) ∷ []
update_stats key f ((k, s) ∷ rest) =
    let later = update_stats key f rest in if k == key then (k, f s) ∷ rest else (k, s) ∷ later

pub record Edge : Type 0 where
  pub reply : CommentSnapshot
  pub parent : CommentSnapshot
  pub source : String
  pub target : String
  pub is_hate : Bool

pub record Tally : Type 0 where
  pub node_stats : StatsTable
  pub edge_values : List Edge

-- A row of the query: a comment, and the verdict of its result in the run.
abbrev pub Row : Type 0
Row = CommentSnapshot × Option AnalysisResult

abbrev pub is_hateful : Option AnalysisResult → Bool
is_hateful none = false
is_hateful (some result) = elim result.values.is_hate_speech [ none ↦ false | some b ↦ b ]

-- `comments[id]`: the dictionary keeps the last comment of an id.
unfoldable pub comment_of : String → List Row → Option CommentSnapshot
comment_of id [] = none
comment_of id ((comment, _) ∷ rest) =
    or_else (comment_of id rest) (if comment.youtube_comment_id == id then some comment else none)

-- The comment that a row replies to, if it is among the rows.
unfoldable pub parent_of : List Row → CommentSnapshot → Option CommentSnapshot
unfolding comment_of
parent_of rows comment = elim comment.parent_youtube_comment_id [
  | none ↦ none
  | some id ↦ if id == "" then none else comment_of id rows
]

abbrev pub count_comment : CommentSnapshot → Bool → NodeStats → NodeStats
count_comment comment hateful s = record s {
  comment_count = s.comment_count + 1;
  hate_count = s.hate_count + (if hateful then 1 else 0);
  label = text_or_text s.label comment.author_display_name;
  channel = text_or_text s.channel comment.author_channel_id;
}

abbrev pub count_out : NodeStats → NodeStats
count_out s = record s { out_degree = s.out_degree + 1 }

abbrev pub count_in : NodeStats → NodeStats
count_in s = record s { in_degree = s.in_degree + 1 }

module _ (show_id : ℕ → String) where
  unfoldable pub node_key : CommentSnapshot → String
  node_key comment = elim comment.author_channel_id [
    | none ↦ String.◌++◌ "anonymous:" (show_id comment.id)
    | some id ↦ if id == "" then String.◌++◌ "anonymous:" (show_id comment.id) else id
  ]

  -- The edge of a reply whose parent is known.
  abbrev pub add_edge : Option CommentSnapshot → CommentSnapshot → Bool → Tally → Tally
  add_edge none comment hateful t = t
  add_edge (some parent) comment hateful t = record {
    node_stats =
        update_stats (node_key parent) count_in
          (update_stats (node_key comment) count_out t.node_stats);
    edge_values =
        t.edge_values
        ++ record {
          reply = comment;
          parent = parent;
          source = node_key comment;
          target = node_key parent;
          is_hate = hateful;
        }
          ∷ [];
  }

  -- One round of the loop over the rows.
  unfoldable pub add_row : List Row → Row → Tally → Tally
  unfolding parent_of update_stats
  add_row rows (comment, result) t =
      add_edge (parent_of rows comment) comment (is_hateful result) (record t {
        node_stats =
            update_stats (node_key comment) (count_comment comment (is_hateful result))
              t.node_stats;
      })

  unfoldable pub add_rows : List Row → List Row → Tally → Tally
  unfolding add_row
  add_rows rows [] t = t
  add_rows rows (row ∷ rest) t = add_rows rows rest (add_row rows row t)

  unfoldable pub tally : List Row → Tally
  unfolding add_rows
  tally rows = add_rows rows rows (record { node_stats = []; edge_values = [] })

unfoldable pub network_rows : AnalysisRun → Database → List Row
network_rows run db =
    map
      (λ comment. (
        comment,
        find? (λ result. result.source_id == comment.id && result.analysis_run_id == run.id)
            db.comment_analysis_results,
      ))
      (filter (λ comment. comment.job_id == run.job_id) db.comment_snapshots)

unfoldable pub node_rows : ℕ → ℕ → StatsTable → List CommentNetworkNode
node_rows id network_id [] = []
node_rows id network_id ((key, s) ∷ rest) =
    record {
      id = id;
      network_id = network_id;
      node_key = key;
      node_type = "author";
      label = s.label;
      author_channel_id = s.channel;
      comment_count = s.comment_count;
      hate_speech_count = s.hate_count;
      hate_speech_ratio =
          if s.comment_count == 0
          then record { numerator = 0; denominator = 1 }
          else record { numerator = s.hate_count; denominator = s.comment_count };
      metrics =
          ("in_degree", int s.in_degree)
          ∷ ("out_degree", int s.out_degree)
          ∷ ("degree", int (s.in_degree + s.out_degree))
          ∷ [];
      attributes = [];
    }
    ∷ node_rows (suc id) network_id rest

unfoldable pub edge_rows : ℕ → ℕ → List Edge → List CommentNetworkEdge
edge_rows id network_id [] = []
edge_rows id network_id (e ∷ rest) =
    record {
      id = id;
      network_id = network_id;
      source_node_key = e.source;
      target_node_key = e.target;
      edge_type = "reply_to";
      weight = 1;
      comment_snapshot_id = some e.reply.id;
      parent_comment_snapshot_id = some e.parent.id;
      is_hate_speech = some e.is_hate;
      attributes = [];
    }
    ∷ edge_rows (suc id) network_id rest

unfoldable pub build : (ℕ → String) → AnalysisRun → Database → CommentNetwork × Database
unfolding network_rows tally node_rows edge_rows
build show_id run db =
    let t = tally show_id (network_rows run db) in
    let network : CommentNetwork = record {
      id = db.next_id;
      analysis_run_id = run.id;
      graph_type = "comment_reply_author_network";
      directed = true;
      status = JobStatus.succeeded;
      summary =
          ("node_count", int (length t.node_stats))
          ∷ ("edge_count", int (length t.edge_values))
          ∷ ("self_edge_count", int (count (λ e. e.source == e.target) t.edge_values))
          ∷ [];
      created_at = db.now;
    } in
    let first_node = suc db.next_id in
    let first_edge = first_node + length t.node_stats in
    (
      network,
      record db {
        comment_networks = db.comment_networks ++ network ∷ [];
        comment_network_nodes =
            db.comment_network_nodes ++ node_rows first_node network.id t.node_stats;
        comment_network_edges =
            db.comment_network_edges ++ edge_rows first_edge network.id t.edge_values;
        next_id = first_edge + length t.edge_values;
      },
    )
