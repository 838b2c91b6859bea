-- ===== src/Lib.antt =====
-- A model of cpplint.py, the style checker that the Makefile runs over the C++ sources, with
-- theorems about its state machines, its scanners and its error reporting.
--
-- The program reads a file into lines and makes cleansed copies of them (no comments, no raw
-- strings, collapsed strings). It then passes over the lines with four pieces of state: the blocks
-- that are open, the sections of includes, the function that is being counted, and the module-wide
-- state that Error reads and writes. Each check reports through Error, which asks the NOLINT
-- suppressions, the verbosity level and the filters whether to print.
--
-- The model:
-- - Base and its child modules: shared names, Boolean tests on numbers, list lemmas, the integers.
-- - Text: Python strings as lists of code points, with the string methods that the source calls.
-- - Regex: Match, Search and ReplaceAll. A pattern is read from its spelling in the source by
--   Regex/Syntax, and matching is a backtracking search over all ways to match, in Python's order;
--   the first way is the result. Regex/Laws has lemmas on the length of what a match leaves,
--   Regex/Ends on the character that ends a match, and Regex/Begins on searches for an expression
--   that begins with fixed characters.
-- - Lint: the tables of categories, filters and headers (Tables); ParseNolintSuppressions and
--   IsErrorSuppressedByNolint (Suppressions); _CppLintState, _ShouldPrintError and Error (State).
--   A check returns the list of its calls of Error and of its changes to the suppressions, in
--   order; run_effects performs them. none stands for a failed assertion.
-- - Cleanse: CleanseRawStrings, RemoveMultiLineComments with its helpers, IsCppString,
--   CleanseComments and CleansedLines; Blanking has the single pass that RemoveMultiLineComments
--   is compared with (BlankingLoop).
-- - Functions: _FunctionState and CheckForFunctionLengths.
-- - Expression: FindEndOfExpressionInLine, CloseExpression and their mirror images.
-- - Nesting: _BlockInfo, _ClassInfo and _NamespaceInfo (Blocks), _PreprocessorInfo and
--   UpdatePreprocessor (Preprocessor), _NestingState.Update with InnermostClass and
--   CheckCompletedBlocks (Update). A stack is a list with its top in front.
-- - Includes: _IncludeState (State, Order); Lines has _DropCommonSuffixes, _IsTestFilename,
--   _ClassifyInclude and CheckIncludeLine; Required has UpdateIncludeState and
--   CheckForIncludeWhatYouUse, with the reading of a file as an argument.
-- - FilePath: the functions of os.path on text, as they are on POSIX systems. FileInfo: the class
--   FileInfo and GetHeaderGuardCPPVariable; os.path.exists and os.path.abspath are a record
--   FileSystem that the definitions take.
-- - HeaderGuard: CheckForHeaderGuard, from the CPP variable on.
-- - FileChecks: checks of a whole file or of one line that need no state.
-- - SameModule: FilesBelongToSameModule; Paths has the relations between a name and the path that
--   is made of it.
-- - TextInside: _GetTextInside; the search for its pattern is an argument.
-- - Style: CheckStyle (Lines) and what it calls: blank lines and sections (Blanks), comments and
--   access (Comments), function calls (Calls), operators with template brackets (Operators,
--   Angles), CheckSpacing (Spacing), CheckBraces and CheckEmptyBlockBody (Braces), CheckCheck and
--   CheckAltTokens (Macros). Report has how these checks read patterns and report. What Python
--   knows of Unicode is a record that CheckStyle takes.
-- - Language: CheckPosixThreading and CheckMakePairUsesDeduction (Functions),
--   CheckForNonStandardConstructs (Constructs), CheckCStyleCast and the parts of CheckLanguage
--   (Casts, Arrays, Printf, Types; none is a failed assertion of _GetTextInside), CheckLanguage
--   itself (Types/Include), and CheckForNonConstReference (References).
-- - Processing: ProcessLine and ProcessFileData, without extra check functions; Files has
--   ProcessFile and the part of main behind ParseArguments, Assertions the lemmas that no
--   assertion of _GetTextInside fails. What Python and the operating system say is a record
--   Environment, and the names that FileInfo finds for a file are a record Names; both are
--   arguments, as are the lines that were read.
-- - CommandLine: ParseArguments, with what getopt and int return as arguments; its result is an
--   early exit, or the options with the module-wide state and the files.
-- - Tests: runs of the definitions on small inputs.
--
-- Bounds and fuel: numbers of Python are unbounded, so positions and counts are natural numbers,
-- and integers where the source goes below zero. A position of -1 is none. Regular expressions
-- repeat at most as often as characters are left, since a repeated part that matches the empty
-- text ends the repetition, as it does in Python. The loops of Update that consume a line carry
-- the length of the line as fuel, and RemoveMultiLineComments the number of lines: each of their
-- rounds takes at least one character, or one line, off what is left. The loops of FileInfo carry
-- one more than the length of the file's name, since each round goes one directory up (if a
-- directory made of slashes holds .svn, the loop of the source for SVN may have no end, and none
-- is returned), and the loop of CheckCheck one more than the length of its expression. The
-- logarithm in _FunctionState.Check is a floating-point logarithm cut to an integer; it is the
-- exact integer logarithm here, since the result is capped at 5.
--
-- Not modelled: negative verbosity levels; the cache of compiled patterns; the order in which
-- Python 2 lists a dictionary; the texts that PrintUsage and PrintCategories print. The C++
-- programs of the repository and the copy of Google Test under thirdparty are outside of this
-- library.
mod Base
mod Text
pub mod Regex
pub mod Lint
pub mod Cleanse
pub mod Functions
pub mod Expression
pub mod Nesting
pub mod Includes
pub mod HeaderGuard
pub mod FileChecks
pub mod SameModule
pub mod TextInside
pub mod FilePath
pub mod FileInfo
pub mod Style
pub mod Language
pub mod Processing
pub mod CommandLine
mod Tests
