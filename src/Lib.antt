-- ===== src/Lib.antt =====
-- A model of the financial core of a savings and loan cooperative's server.
--
-- The server (internal/app) keeps members, their savings and loans, requests that officers decide
-- on in stages, and a ledger of double-entry journals, all in SQL tables. A handler reads rows,
-- tests its guards, and writes rows within one transaction under a lock, so an operation is a
-- function from tables to tables or to an error; an operation that fails leaves no trace. The parts:
--
--   Base            shared names; numbers, texts as code points, rows under a key, results
--   Calendar        loan dates: parseLoanDate and loanDueDate of internal/app/loan_schedule.go
--   Schedule        fees, schedules and fee snapshots: the rest of internal/app/loan_schedule.go.
--                   Terms has constants, records and errors; Fees, Plan and Loans the calculators;
--                   Snapshot the validation at approval
--   Allocation      payments over installments: allocateRepaymentsOldestFirst, and the loop of
--                   recordRepaymentTx of internal/app/repayments.go. Poured is the abstract view
--   Repayments      recordRepaymentTx (Posting), refreshLoanRepaymentScheduleTx of
--                   internal/app/repayment_corrections.go (Refresh) and correctLoanStartDateByID of
--                   internal/app/loans.go (StartDate). Current says when a loan agrees with its
--                   payments, Kept when the books agree as a whole, Opened is about new loans,
--                   Rebuilt and Restarted about rebuilt schedules. Corrections has correctRepaymentByID,
--                   removeRepaymentByID and syncRepaymentJournalTx of
--                   internal/app/repayment_corrections.go; Corrected and Corrects are about its loans
--                   and payments, Synced and Mirrored about its journals, Entered about those of new
--                   payments, and Reconciled and Lifecycle join them
--   Rupiah          amounts of browser forms: internal/app/rupiah.go
--   Accounting      internal/app/accounting.go: Lines chooses and checks a journal's lines, Mapping
--                   finds accounts, Journal writes the entry (createFinancialJournalTx). Reversal
--                   has insertRepaymentJournalReversalTx of internal/app/repayment_corrections.go and
--                   the queries for the entry that stands; Reversed is about the former, Live,
--                   Standing, Exchanged, Sole and Topmost about those that stand when entries are
--                   added and reversed, Entered about the entry of a new journal and its lines. Pending
--                   has resolvePendingFinancialJournalsTx, and Resolved is about it
--   ManualCash      manual cash transactions, general journals and their reference numbers:
--                   internal/app/manual_cash_transactions.go (Posting has
--                   insertManualCashTransactionTx), and reverseFinancialJournalTx of
--                   internal/app/accounting_reports.go (Reversal). Reversed and Once are about
--                   reversals, Moved and Counted about the cash that is moved and counted, Referenced
--                   about the reference numbers, Lifecycle about any sequence of journals and
--                   reversals
--   Categories      the tree of cash transaction categories: the checks of
--                   internal/app/cash_transaction_category_tree.go and the update of
--                   internal/app/manual_cash_transactions.go; Rooted, Finished and Refused are about
--                   the tree, Sorting has its sorting and Sorted the theorem about it
--   Savings         summaries, limits and deposits: internal/app/savings.go (Records has insertSaving),
--                   and internal/app/saving_corrections.go (Corrections has correctSavingByID, Removal
--                   removeSavingByID). Entered, Synced, Booked and Corrected are about the journals of
--                   deposits, Lifecycle joins them
--   Approval        roles and stages: internal/app/approvals.go; Requests has what loan requests
--                   and withdrawal requests share, their status, decisions and notices
--   Authorization   permissions: internal/app/authorization.go
--   LoanRequests    loan requests and loans. Here and in Terms the limit by savings and the terms;
--                   Requests (insertLoanRequest, cancelLoanRequestByID of
--                   internal/app/loan_requests.go; insertAdminLoanRequestTx, cancelAdminLoanRequest
--                   of internal/app/admin_loan_requests.go), Decisions (approveLoanRequestByID of
--                   internal/app/loans.go, rejectLoanRequestByID), Disbursement
--                   (disburseLoanRequestByID) and Overrides (overrideLoanRequestByID,
--                   rejectLoanRequestBySuperAdmin of internal/app/super_admin_overrides.go), on the
--                   tables of Types. The other files are about them: the terms in Backed, one
--                   request in Invariant, one operation in Effects, Approvals, Disbursed and Books,
--                   all of them in Sound and Lifecycle, progress in Progress, payoffs in Payoff and
--                   PaidOut
--   Withdrawals     internal/app/withdrawals.go and the withdrawals of
--                   internal/app/super_admin_overrides.go: Requests (insertWithdrawalRequestAs,
--                   updateOfficerWithdrawalRequest, cancelWithdrawalRequestByID), Decisions
--                   (approveWithdrawalRequestByID, rejectWithdrawalRequestByID), Disbursement
--                   (disburseWithdrawalRequestByID) and Overrides, on the tables of Types. Effects,
--                   Payout, Entered, Approved and Paid are about one operation, Cover, Invariant,
--                   Sound and Lifecycle about all of them
--   Examples        the theorems at concrete inputs
--
-- Withdrawals call Savings for the limit, Approval for the stages, Authorization for the
-- officer's rights, Calendar for the date and Accounting for the journal of a disbursement; loan
-- requests call the same, and Schedule for the terms. Corrections of repayments call Accounting
-- for the reversal of a journal and Repayments for the loan; ManualCash calls Accounting and
-- reads Categories. A disbursement opens a loan in the books of Repayments and pays earlier loans
-- off through its Posting. Schedules give the rows that Allocation fills, and Repayments keeps
-- them in a loan.
--
-- Numbers. An amount is a number of whole Rupiah. Where the code computes int64 sums and products of
-- amounts the model has add64 and mul64, which wrap, and theorems say where they are exact; a sum
-- that a guard bounds, or that SQL computes, is a plain sum. Amounts of inputs are signed.
--
-- Loops are recursions on the list that the code walks. Fuel is used for printing a number, where
-- it is above the number, for the walk over a category's parents, where it is the number of
-- categories and one more, since the walk never sees a category twice, and for the search for a
-- reference number, where it is the number of transactions and one more, since no two tries are
-- equal. Identifiers that `newID` makes are arguments; that a new one is not in use is a
-- hypothesis where it matters.
--
-- Not modelled: HTTP, templates, documents, sessions, migrations and imports; SQL failures,
-- which roll a transaction back; times of day; the column `correction_reason`; the texts of
-- languages, which are a function where journals take them; imports of many loan requests,
-- drafts of manual transactions, the chart of accounts' own
-- operations, deactivation of members and tagihan.
pub mod Base
pub mod Calendar
pub mod Categories
pub mod Schedule
pub mod Allocation
pub mod Rupiah
pub mod Accounting
pub mod Savings
pub mod Approval
pub mod Authorization
pub mod Repayments
pub mod LoanRequests
pub mod ManualCash
pub mod Withdrawals
pub mod Examples
