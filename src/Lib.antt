-- ===== src/Lib.antt =====
-- Verification of the LifLow backend: payments, and the stock, points, coupons, memberships, carts
-- and orders that they change, and the promotions that set the prices of products.
--
-- The program is a NestJS service over a relational database. A customer initiates a payment for
-- cart items or for one product; that makes an order group with its orders. Toss Payments takes
-- the money; the confirmation then books it in one transaction. A payment can be cancelled before
-- shipping and returned after it. Files and what they model, by path in the repository:
--
--   Payment/Pricing, Payment/Initiate   src/modules/payment/payment.service.ts: initiatePayment and
--                                       initiatePaymentV2, and the group numbers of
--                                       src/modules/order/order.service.ts
--   Payment/Confirm                     the same file: confirmPayment
--   Payment/Refund                      the same file: cancelPayment and returnPayment
--   Payment/Toss                        the answers of Toss, and the tables that read them
--   Payment/Sync                        the same file: syncPayment
--   Payment/Lifecycle                   initiation, confirmation and cancellation together
--   CouponHistories                     src/modules/coupon-history: the repository, the service and
--                                       the scheduled jobs; Steps holds the relation of all of them
--                                       and the contract on the numbers of coupons, Administration
--                                       update of src/modules/coupons/coupons.service.ts
--   Stock, Coupons, Membership          the parts of those transactions on products, on coupon
--                                       histories and on membership levels
--   Points, Reward                      the points that a payment spends, gives back and earns
--                                       (src/modules/point/point.service.ts: issueAfterPayment)
--   Carts                               src/modules/carts/services: cart-item.service.ts, also in
--                                       Carts/Items, and cart.service.ts in Carts/Service
--   Orders                              src/modules/order/order.service.ts: updateOrderGroup; create
--                                       in Orders/Creation and Orders/Redemption, the serial
--                                       numbers in Orders/Numbers,
--                                       createOrderGroup and cancelOrderGroup in Orders/Groups
--   Membership/Recalculation            src/modules/memberships/cronjob: the recalculation of levels
--   Membership/Service                  src/modules/memberships/memberships.service.ts
--   Discounts                           src/modules/product-discount: the nightly job, also in
--                                       Discounts/SalePrices, the administration in
--                                       Discounts/Service; Discounts/Offers has the special offers
--                                       of src/modules/product/product.service.ts
--   Schema                              prisma/schema.prisma, and results of services
--   Prelude                             tests on numbers, lists, and integers
--   Tests                               a small database on which the theorems are tried
--
-- A call is a function from the database to a result. The database is a record of tables: a
-- function from a unique key to a row, or a list of rows where a service searches by other
-- columns. Where a service lists all users or all products, their identifiers are an argument. A
-- transaction that throws leaves the database as it was, so an exception carries none. Identifiers,
-- order group numbers and payment keys are texts that are only compared: they are numbers here,
-- and a new identifier is one more than the last. Amounts are natural numbers of won, since the
-- requests are checked to be so; the balances of users and the stock are integers, since the code
-- decrements them unconditionally. The quantities of coupons in a request are natural numbers too,
-- although the request is checked for numbers only. The 32-bit bound of the database on integers
-- is not modelled. A clock is read once in a call. The reward rates, in percent with one decimal,
-- are in tenths of a percent; the doubles of the source give the same whole part far below 2 ^ 53.
--
-- Toss, the verification of payment tokens, the job queue, random numbers, the clock and the prices
-- that are rounded from doubles are arguments: `Outside`, `TossCancel`, `Clock`, `draw`,
-- `rounded`. Loops are structural recursion over the rows they visit; the search for a free group
-- number counts its attempts down, from 10 and from 5 as in the source, and so does the search for an
-- order number, from 5.
--
-- Not modelled: queries, exports, logging, notifications but for those of payments and order
-- groups, the CRUD of the other modules, authentication, the update and the removal of orders, the
-- copied columns that no service reads, and concurrent transactions.
pub mod Prelude
pub mod Schema
pub mod Stock
pub mod Points
pub mod Reward
pub mod Membership
pub mod Coupons
pub mod CouponHistories
pub mod Carts
pub mod Discounts
pub mod Payment
pub mod Orders
pub mod Tests
