-- ===== src/Task/Names.antt =====
-- The checks and the texts of tasks (api/src/tasks.rs from `active_task_status_label` on).
use Prim.Native.Char.{Char, code}
use Prim.Native.String.{◌++◌ as text_append}
use easy_deploy.Prelude.{
  ℕ, String, List, [], ◌∷◌, Bool, true, false, not, ◌&&◌, ◌||◌, if◌then◌else◌, leb, ◌==◌, str_eq,
  any, keep, is_empty, Result, ok, err,
}
use easy_deploy.Prelude.Text.{trim, text_is_empty}
use easy_deploy.Prelude.Slices.{take}
use easy_deploy.Run.Types.{TaskStatus, StepStatus}
use easy_deploy.Task.Types.{TaskError, invalid_state, internal, NodeResultStatus, LogStream}

-- `TaskError::from` of a violated UNIQUE constraint or of the trigger's refusal.
abbrev pub conflict_error : TaskError
conflict_error = invalid_state "该应用已有等待中或执行中的部署任务"

-- `TaskError::from` of any other error of sqlx, whose text follows.
abbrev pub data_error : String → TaskError
data_error text = internal (text_append "任务数据操作失败: " text)

unfoldable pub is_one_of : List String → String → Bool
unfolding any
is_one_of names text = any (str_eq text) names

abbrev pub task_phases : List String
task_phases =
    "queued" ∷ "preflight" ∷ "preparing_files" ∷ "executing" ∷ "healthchecking" ∷ "prepare"
    ∷ "render" ∷ "pre_deploy" ∷ "deploy" ∷ "post_deploy" ∷ "switch_traffic" ∷ "cleanup" ∷ "finalize"
    ∷ "completed" ∷ "failed" ∷ "canceled" ∷ []

unfoldable pub normalize_task_phase : String → Result String TaskError
unfolding is_one_of
normalize_task_phase phase =
    if is_one_of task_phases phase then ok phase else err (invalid_state "任务阶段不支持")

unfoldable pub task_phase_title : String → String
task_phase_title phase =
    if str_eq phase "queued"
    then "等待入队"
    else if str_eq phase "preflight"
    then "部署前预检"
    else if str_eq phase "preparing_files"
    then "准备运行文件"
    else if str_eq phase "executing"
    then "执行命令"
    else if str_eq phase "healthchecking"
    then "健康检查"
    else if str_eq phase "prepare"
    then "准备发布"
    else if str_eq phase "render"
    then "渲染配置"
    else if str_eq phase "pre_deploy"
    then "发布前脚本"
    else if str_eq phase "deploy"
    then "部署脚本"
    else if str_eq phase "post_deploy"
    then "发布后脚本"
    else if str_eq phase "switch_traffic"
    then "切换流量"
    else if str_eq phase "cleanup"
    then "清理现场"
    else if str_eq phase "finalize"
    then "收尾确认"
    else if str_eq phase "completed"
    then "已完成"
    else if str_eq phase "failed"
    then "失败收尾"
    else if str_eq phase "canceled"
    then "已取消"
    else "未知阶段"

unfoldable pub normalize_node_result_status : String → Result NodeResultStatus TaskError
normalize_node_result_status status =
    if str_eq status "success"
    then ok NodeResultStatus.success
    else if str_eq status "failed"
    then ok NodeResultStatus.failed
    else if str_eq status "skipped"
    then ok NodeResultStatus.skipped
    else err (invalid_state (text_append "节点任务结果状态无效: " status))

unfoldable pub normalize_step_status : String → Result StepStatus TaskError
normalize_step_status status =
    if str_eq status "pending"
    then ok StepStatus.pending
    else if str_eq status "running"
    then ok StepStatus.running
    else if str_eq status "success"
    then ok StepStatus.success
    else if str_eq status "failed"
    then ok StepStatus.failed
    else if str_eq status "skipped"
    then ok StepStatus.skipped
    else err (invalid_state (text_append "任务步骤状态无效: " status))

unfoldable pub normalize_log_stream : String → Result LogStream TaskError
normalize_log_stream stream =
    if str_eq stream "system"
    then ok LogStream.system
    else if str_eq stream "stdout"
    then ok LogStream.stdout
    else if str_eq stream "stderr"
    then ok LogStream.stderr
    else if str_eq stream "combined"
    then ok LogStream.combined
    else err (invalid_state (text_append "任务日志流无效: " stream))

abbrev pub is_key_char : Char → Bool
is_key_char c =
    leb 48 (code c) && leb (code c) 57
    || (leb 65 (code c) && leb (code c) 90
        || (leb 97 (code c) && leb (code c) 122
            || (code c == 46 || (code c == 45 || code c == 95))))

unfoldable pub all_key_chars : String → Bool
all_key_chars String.[] = true
all_key_chars (String.◌∷◌ c s) = is_key_char c && all_key_chars s

unfoldable pub normalize_step_key : String → Result String TaskError
unfolding trim all_key_chars
normalize_step_key value =
    let value = trim value in
    if text_is_empty value || not (all_key_chars value)
    then err (invalid_state "任务步骤标识仅支持字母、数字、点、短横线和下划线")
    else ok value

unfoldable pub required_step_text : String → String → Result String TaskError
unfolding trim
required_step_text value message =
    let value = trim value in if text_is_empty value then err (invalid_state message) else ok value

unfoldable pub status_text : TaskStatus → String
status_text TaskStatus.queued = "queued"
status_text TaskStatus.running = "running"
status_text TaskStatus.success = "success"
status_text TaskStatus.failed = "failed"
status_text TaskStatus.canceled = "canceled"

abbrev pub begins_with_feed : String → Bool
begins_with_feed String.[] = false
begins_with_feed (String.◌∷◌ c s) = code c == 10

-- The first line, and the lines after it if there is a line feed. A carriage return before a line
-- feed belongs to neither.
unfoldable pub split_lines : String → String × List String
split_lines String.[] = (String.[], [])
split_lines (String.◌∷◌ c s) =
    let (first, rest) = split_lines s in
    if code c == 10
    then (String.[], first ∷ rest)
    else if code c == 13 && begins_with_feed s
    then (first, rest)
    else (String.◌∷◌ c first, rest)

-- Without the empty text after a last line feed.
unfoldable pub drop_last_empty : List String → List String
drop_last_empty [] = []
drop_last_empty (text ∷ texts) =
    let rest = drop_last_empty texts in
    if text_is_empty text && is_empty texts then [] else text ∷ rest

-- `str::lines`.
unfoldable pub lines : String → List String
unfolding split_lines drop_last_empty
lines text = let (first, rest) = split_lines text in drop_last_empty (first ∷ rest)

unfoldable pub join_lines : List String → String
join_lines [] = ""
join_lines (line ∷ []) = line
join_lines (line ∷ next ∷ rest) = text_append line (text_append "\n" (join_lines (next ∷ rest)))

unfoldable pub first_lines : String → ℕ → String
unfolding lines keep trim take join_lines
first_lines value limit =
    let shown =
      join_lines (take limit (keep (λ line. not (text_is_empty (trim line))) (lines value))) in
    if text_is_empty shown then "命令没有输出" else shown
