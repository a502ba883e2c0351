-- ===== src/Storage/Backlog/Order.antt =====
-- The jobs of `raise_delivery_backlog_alerts` of web_checker/storage.py, in the order of their ids.
use web_checker_py.Prelude.{
  true, false, ◌||◌, List, [], ◌∷◌, contains, is_distinct, Text, ◌==◌, text_eq, text_lt, ◌≡◌, refl,
  ap, ◌∙◌, arith, text_beq_iff,
}
use web_checker_py.Storage.Tables.{JobRow, insert_by, order_by}
use web_checker_py.Storage.Alerting.{job_ids}
use web_checker_py.Storage.Backlog.{by_job_id}

contains-insert_by :
    (r : JobRow) (rows : List JobRow) (id : Text)
    → contains (job_ids (insert_by (λ a b. text_lt a.job_id b.job_id) r rows)) id
      ≡ (r.job_id == id || contains (job_ids rows) id)
unfolding insert_by
contains-insert_by r [] id = refl
contains-insert_by r (x ∷ rows) id = ground (arith, contains-insert_by r rows id)

is_distinct-insert_by :
    (r : JobRow) (rows : List JobRow)
    → is_distinct (job_ids rows) ≡ true
    → contains (job_ids rows) r.job_id ≡ false
    → is_distinct (job_ids (insert_by (λ a b. text_lt a.job_id b.job_id) r rows)) ≡ true
unfolding insert_by
is_distinct-insert_by r [] d h = refl
is_distinct-insert_by r (x ∷ rows) d h = ground (
  arith,
  is_distinct-insert_by r rows,
  contains-insert_by r rows x.job_id,
  text_beq_iff x.job_id r.job_id,
  text_beq_iff r.job_id x.job_id,
)

pub contains-by_job_id :
    (rows : List JobRow) (id : Text)
    → contains (job_ids (by_job_id rows)) id ≡ contains (job_ids rows) id
unfolding order_by
contains-by_job_id [] id = refl
contains-by_job_id (r ∷ rows) id =
    contains-insert_by r (by_job_id rows) id
    ∙ ap (λ b. r.job_id == id || b) (contains-by_job_id rows id)

pub is_distinct-by_job_id :
    (rows : List JobRow)
    → is_distinct (job_ids rows) ≡ true
    → is_distinct (job_ids (by_job_id rows)) ≡ true
unfolding order_by
is_distinct-by_job_id [] h = refl
is_distinct-by_job_id (r ∷ rows) h =
    is_distinct-insert_by r (by_job_id rows) (is_distinct-by_job_id rows (ground (arith, h)))
      (contains-by_job_id rows r.job_id ∙ ground (arith, h))
