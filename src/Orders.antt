-- ===== src/Orders.antt =====
-- app/db/models/order.py and app/repository/order_repository.py: a row of the table `orders`, and
-- the statements that read and write it. The table is a list of rows in the order of insertion,
-- which is that of `created_at`. A UUID and a time are numbers. `avg_fill_price` is a number in units
-- of 1/10000 and `order_price` the text of the decimal; of the answers that are stored for audit
-- the texts `rt_cd`, `msg_cd`, `msg1` are kept, and not the JSON documents.
pub mod Row
pub mod Repository
pub mod Updates
pub mod Statements
